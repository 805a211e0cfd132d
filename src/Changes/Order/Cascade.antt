-- ===== src/Changes/Order/Cascade.antt =====
-- The cascade of a change order: the edit, the refresh, the record and the status events.
use mathlib.Core.Option
use logistics.Common.{
  ◌≡◌, sym, subst, ap, ◌∙◌, inl, Option, some, List, ◌∷◌, map, String, In, All, All-In, In-All,
  IsDistinct, includes_iff, string_eq,
}
use logistics.Common.Dict
use logistics.Status.Vocabulary.{LegStatus, QuoteStatus}
use logistics.Changes.Impact.{ImpactClass}
use logistics.Changes.Store.{LegRow, QuoteRow, QuoteRef, ChangeLogRow, Db}
use logistics.Changes.Scope.{ChangeRequest}
use logistics.Changes.Fire.{done, ◌>>=◌, invalidate_all, reopen_all}
use logistics.Changes.Fire.Events.{Reopens, Invalidates, QuoteIs, LegIs}
use logistics.Changes.Fire.Events.Loops.{reopen_all-Reopened, invalidate_all-Invalidated}
use logistics.Changes.Order.{log_row, refresh_all, first_transaction, after_commit, apply}
use logistics.Changes.Order.Refresh.{HasLeg, IsFresh, refresh_all-Refreshed}

module _ {M : Type 0} where
  -- The edit changes fields, and neither the status of a quote nor its leg.
  abbrev pub KeepsQuotes : (Db M → Db M) → Db M → Type 0
  KeepsQuotes uow db =
      (id : String) (row : QuoteRow M)
      → Dict.get id db.quotes ≡ some row
      → (row' : QuoteRow M) × (Dict.get id (uow db).quotes ≡ some row')
        × (row'.status ≡ row.status)
        × (row'.leg_id ≡ row.leg_id)

  -- the leg belongs to the query, at a status from which it can be reopened
  abbrev pub IsReopenable : String → Db M → String → Type 0
  IsReopenable query_id db l =
      (leg : LegRow M) × (Dict.get l db.legs ≡ some leg)
      × (leg.query_id ≡ query_id)
      × Reopens leg.status

  -- a pending quote of the changed scope, refreshed from the edited rows and still outstanding
  pub record IsRefreshed (edited after : Db M) (id : String) : Type 0 where
    pub row : QuoteRow M
    pub found : Dict.get id after.quotes ≡ some row
    pub sent : row.status ≡ QuoteStatus.rfq_sent
    pub fresh : IsFresh edited.legs row

  -- the state that a change order is to reach
  pub record Cascaded (ls : List String) (invalidating refreshing : List QuoteRef)
      (edited after : Db M) : Type 0 where
    pub invalid :
        All
          (λ id. QuoteIs (λ s. s ≡ QuoteStatus.invalid) id after)
          (map (λ q. q.quote_id) invalidating)
    pub refreshed : All (IsRefreshed edited after) (map (λ q. q.quote_id) refreshing)
    pub ready : All (λ l. LegIs (λ s. s ≡ LegStatus.ready_for_rfq) l after) ls

  transaction :
      (uow : Db M → Db M) (o : Option String) (query_id : String) (ls ids : List String)
      (row : ChangeLogRow) (db after : Db M)
      → o ≡ some query_id
      → refresh_all query_id ls ids (uow db) ≡ some after
      → first_transaction uow o ls ids row db
        ≡ some (record after { change_log = row ∷ after.change_log })
  unfolding first_transaction
  transaction uow o query_id ls ids row db after asked run =
      rw asked (ap (Option.map {A = Db M} (λ x. record x { change_log = row ∷ x.change_log })) run)

  first_step :
      (req : ChangeRequest) (c : ImpactClass) (reason : String) (uow : Db M → Db M)
      (ls : List String) (inv ref : List QuoteRef) (db mid : Db M)
      → first_transaction uow req.query_id ls
          (map (λ q. q.quote_id) ref)
          (log_row req c reason ls inv ref)
          db
        ≡ some mid
      → apply req c reason uow ls inv ref db
        ≡ (invalidate_all (map (λ q. q.quote_id) inv) mid >>= reopen_all ls)
  unfolding apply
  first_step req c reason uow ls inv ref db mid h = ap (after_commit inv ls db) h

  -- The cascade over any split of quotes: each quote to invalidate has the edge, no id is on both
  -- sides, and each quote to refresh is outstanding and on one of the legs.
  pub apply-Cascaded :
      (req : ChangeRequest) (query_id : String) (c : ImpactClass) (reason : String)
      (uow : Db M → Db M) (ls : List String) (inv ref : List QuoteRef) (db : Db M)
      → req.query_id ≡ some query_id
      → IsDistinct ls
      → IsDistinct (map (λ q. q.quote_id) inv)
      → All (IsReopenable query_id (uow db)) ls
      → All (λ id. QuoteIs Invalidates id (uow db)) (map (λ q. q.quote_id) inv)
      → All
          (λ id.
            (row : QuoteRow M) × (Dict.get id (uow db).quotes ≡ some row)
            × (row.status ≡ QuoteStatus.rfq_sent)
            × In row.leg_id ls
            × (In id (map (λ q. q.quote_id) inv) → ⊥))
          (map (λ q. q.quote_id) ref)
      → (db' : Db M) × (apply req c reason uow ls inv ref db ≡ done db')
        × Cascaded ls inv ref (uow db) db'
        × (db'.change_log ≡ log_row req c reason ls inv ref ∷ (uow db).change_log)
  apply-Cascaded req query_id c reason uow ls inv ref db asked dl di legs edges pending =
      let ids = map (λ (q : QuoteRef). q.quote_id) ref in
      let out = map (λ (q : QuoteRef). q.quote_id) inv in
      let has =
        In-All (HasLeg query_id (uow db).legs) ls
          (λ l m. let (row, found, own, _) = All-In _ ls legs m in (row, found, own)) in
      let (db1, run1, legs1, log1, rows1) = refresh_all-Refreshed query_id ls ids (uow db) has in
      let row = log_row req c reason ls inv ref in
      let mid = record db1 { change_log = row ∷ db1.change_log } in
      let (db2, run2, i) = invalidate_all-Invalidated out mid di (
        In-All _ out (λ id m.
          let (r0, found, edge) = All-In _ out edges m in
          let (r1, there, same) = rows1 id r0 found in
          (r1, there, subst Invalidates (sym same.status) edge))) in
      let (db3, run3, r) = reopen_all-Reopened ls db2 dl (
        In-All _ ls (λ l m.
          let (r0, found, _, back) = All-In _ ls legs m in
          i.reopens l (r0, ap (Dict.get l) legs1 ∙ found, back))) in
      (
        db3,
        first_step req c reason uow ls inv ref db mid
              (transaction uow req.query_id query_id ls ids row db db1 asked run1)
            ∙ ap (λ x. x >>= reopen_all ls) run2
            ∙ run3,
        record {
          invalid = In-All _ out (λ id m.
              let (r0, found, h) = All-In _ out i.invalid m in
              (r0, ap (Dict.get id) r.quotes ∙ found, h));
          refreshed = In-All _ ids (λ id m.
              let (r0, found, sent, leg, alone) = All-In _ ids pending m in
              let (r1, there, same) = rows1 id r0 found in
              record {
                row = r1;
                found = ap (Dict.get id) r.quotes ∙ i.others id alone ∙ there;
                sent = same.status ∙ sent;
                fresh = same.fresh ((includes_iff ids id).1 m) (inl leg);
              });
          ready = r.ready;
        },
        r.logged ∙ i.logged ∙ ap (λ x. row ∷ x) log1,
      )
