-- ===== src/Changes/Fire/Events/Loops.antt =====
-- The two loops of a cascade run to their end where every quote has an edge to INVALID and every leg
-- an edge back to READY_FOR_RFQ.
use logistics.Common.{
  ◌≡◌, refl, subst, ap, ◌∙◌, ◌≢◌, inl, inr, false, List, [], ◌∷◌, String, In, All, All-In, In-All,
  IsDistinct,
}
use logistics.Common.Dict
use logistics.Status.Vocabulary.{LegStatus, QuoteStatus}
use logistics.Changes.Store.{QuoteRow, Db}
use logistics.Changes.Fire.{
  done, ◌>>=◌, set_leg_status, set_quote_status, project_leg, invalidate_all, reopen_all,
}
use logistics.Changes.Fire.Events.{
  Reopens, Invalidates, QuoteIs, LegIs, project_leg-quotes, project_leg-change_log,
  project_leg-Reopens, fire_quote-invalidate, fire_leg-reopen,
}

distinct : (id l : String) (ids : List String) → (In id ids → ⊥) → In l ids → l ≢ id
distinct id l ids fresh m e = fresh (subst (λ x. In x ids) e m)

module _ {M : Type 0} where
  -- the outcome of the first loop
  pub record Invalidated (ids : List String) (before after : Db M) : Type 0 where
    pub invalid : All (λ id. QuoteIs (λ s. s ≡ QuoteStatus.invalid) id after) ids
    pub others : (j : String) → (In j ids → ⊥) → Dict.get j after.quotes ≡ Dict.get j before.quotes
    pub reopens : (l : String) → LegIs Reopens l before → LegIs Reopens l after
    pub logged : after.change_log ≡ before.change_log

  -- the outcome of the second
  pub record Reopened (ids : List String) (before after : Db M) : Type 0 where
    pub ready : All (λ l. LegIs (λ s. s ≡ LegStatus.ready_for_rfq) l after) ids
    pub others : (l : String) → (In l ids → ⊥) → Dict.get l after.legs ≡ Dict.get l before.legs
    pub quotes : after.quotes ≡ before.quotes
    pub logged : after.change_log ≡ before.change_log

  -- A row that is found in one database is found in another that agrees there.
  LegIs-same :
      (P : LegStatus → Type 0) (l : String) (a b : Db M)
      → Dict.get l b.legs ≡ Dict.get l a.legs
      → LegIs P l a
      → LegIs P l b
  LegIs-same P l a b same (row, found, h) = (row, same ∙ found, h)

  QuoteIs-same :
      (P : QuoteStatus → Type 0) (l : String) (a b : Db M)
      → Dict.get l b.quotes ≡ Dict.get l a.quotes
      → QuoteIs P l a
      → QuoteIs P l b
  QuoteIs-same P l a b same (row, found, h) = (row, same ∙ found, h)

  pub reopen_all-Reopened :
      (ids : List String) (db : Db M)
      → IsDistinct ids
      → All (λ l. LegIs Reopens l db) ids
      → (db' : Db M) × (reopen_all ids db ≡ done db') × Reopened ids db db'
  unfolding reopen_all
  reopen_all-Reopened [] db d h =
      (db, refl, record { ready = tt; others = λ l _. refl; quotes = refl; logged = refl })
  reopen_all-Reopened (id ∷ ids) db (fresh, d) ((row, found, r), h) =
      let db1 = set_leg_status id row LegStatus.ready_for_rfq db in
      let (db2, run, rest) = reopen_all-Reopened ids db1 d (
        In-All _ ids (λ l m.
          LegIs-same Reopens l db db1
            (Dict.get-set_other id l _ db.legs (distinct id l ids fresh m)) (All-In _ ids h m))) in
      (
        db2,
        ap (λ x. x >>= reopen_all ids) (fire_leg-reopen id db row found r) ∙ run,
        record {
          ready = (
            (
              record row { status = LegStatus.ready_for_rfq },
              rest.others id fresh ∙ Dict.get-set_same id _ db.legs,
              refl,
            ),
            rest.ready,
          );
          others = λ l out.
              rest.others l (λ m. out (inr m))
              ∙ Dict.get-set_other id l _ db.legs (λ e. out (inl e));
          quotes = rest.quotes;
          logged = rest.logged;
        },
      )

  pub invalidate_all-Invalidated :
      (ids : List String) (db : Db M)
      → IsDistinct ids
      → All (λ id. QuoteIs Invalidates id db) ids
      → (db' : Db M) × (invalidate_all ids db ≡ done db') × Invalidated ids db db'
  unfolding invalidate_all
  invalidate_all-Invalidated [] db d h =
      (db, refl, record { invalid = tt; others = λ l _. refl; reopens = λ l h. h; logged = refl })
  invalidate_all-Invalidated (id ∷ ids) db (fresh, d) ((row, found, r), h) =
      let db0 = set_quote_status id row QuoteStatus.invalid db in
      let db1 = project_leg false row.leg_id db0 in
      let quotes1 =
        ap (λ q. Dict.get {V = QuoteRow M} id q) (project_leg-quotes false row.leg_id db0) in
      let (db2, run, rest) = invalidate_all-Invalidated ids db1 d (
        In-All _ ids (λ l m.
          QuoteIs-same Invalidates l db db1
            (ap (Dict.get l) (project_leg-quotes false row.leg_id db0)
              ∙ Dict.get-set_other id l _ db.quotes (distinct id l ids fresh m))
            (All-In _ ids h m))) in
      (
        db2,
        ap (λ x. x >>= invalidate_all ids) (fire_quote-invalidate id db row found r) ∙ run,
        record {
          invalid = (
            (
              record row { status = QuoteStatus.invalid },
              rest.others id fresh ∙ quotes1 ∙ Dict.get-set_same id _ db.quotes,
              refl,
            ),
            rest.invalid,
          );
          others = λ l out.
              rest.others l (λ m. out (inr m))
              ∙ ap (Dict.get l) (project_leg-quotes false row.leg_id db0)
              ∙ Dict.get-set_other id l _ db.quotes (λ e. out (inl e));
          reopens = λ l here. rest.reopens l (project_leg-Reopens row.leg_id l db0 here);
          logged = rest.logged ∙ project_leg-change_log false row.leg_id db0;
        },
      )
