-- ===== src/Changes/Order/Refresh.antt =====
-- The refresh of the pending quotes in the first transaction of a change order.
use mathlib.Core.Option
use logistics.Common.{
  ◌≡◌, refl, sym, subst, ap, ◌∙◌, ◌⊎◌, inl, inr, true, false, ◌&&◌, some, List, [], ◌∷◌, map,
  String, arith, In, All, includes, Bool-cases, eq_iff, ◌==◌, string_eq,
}
use logistics.Common.Dict
use logistics.Changes.Store.{LegRow, QuoteRow, Db}
use logistics.Changes.Order.{refresh_row, refresh_all}

module _ {M : Type 0} where
  -- the leg exists, and belongs to the query
  abbrev pub HasLeg : String → Dict.Dict (LegRow M) → String → Type 0
  HasLeg q legs l = (leg : LegRow M) × (Dict.get l legs ≡ some leg) × (leg.query_id ≡ q)

  -- The quote shows the leg as it is now, and no draft of an answer is left.
  pub record IsFresh (legs : Dict.Dict (LegRow M)) (row : QuoteRow M) : Type 0 where
    pub leg : LegRow M
    pub found : Dict.get row.leg_id legs ≡ some leg
    pub view : row.snapshot ≡ some leg.frozen_view
    pub no_draft : row.draft ≡ false

  -- what the refresh does to one quote
  pub record Refreshed (ls ids : List String) (legs : Dict.Dict (LegRow M)) (id : String)
      (before after : QuoteRow M) : Type 0 where
    pub status : after.status ≡ before.status
    pub leg_id : after.leg_id ≡ before.leg_id
    pub fresh :
        includes ids id ≡ true → (In before.leg_id ls ⊎ IsFresh legs before) → IsFresh legs after

  refresh_leg-Refreshed :
      (l id : String) (ids : List String) (db : Db M) (leg : LegRow M) (row : QuoteRow M)
      → Dict.get l db.legs ≡ some leg
      → Refreshed (l ∷ []) ids db.legs id row (refresh_row l ids leg.frozen_view (id, row)).1
  refresh_leg-Refreshed l id ids db leg row found =
      elim (Bool-cases (row.leg_id == l && includes ids id)) [
        | inl hit ↦ rw hit (record {
          status = refl;
          leg_id = refl;
          fresh = λ m _. record {
            leg = leg;
            found =
                subst (λ x. Dict.get x db.legs ≡ some leg)
                  (sym ((eq_iff row.leg_id l).0 (ground arith))) found;
            view = refl;
            no_draft = refl;
          };
        })
        | inr miss ↦ rw miss (record {
          status = refl;
          leg_id = refl;
          fresh = λ m here. elim here [
            | inl (inl e) ↦ absurd (ground (arith, eq_iff row.leg_id l))
            | inl (inr e) ↦ absurd e
            | inr f ↦ f
          ];
        })
      ]

  Refreshed-trans :
      (l id : String) (ls ids : List String) (legs : Dict.Dict (LegRow M)) (a b c : QuoteRow M)
      → Refreshed (l ∷ []) ids legs id a b
      → Refreshed ls ids legs id b c
      → Refreshed (l ∷ ls) ids legs id a c
  Refreshed-trans l id ls ids legs a b c p q = record {
    status = q.status ∙ p.status;
    leg_id = q.leg_id ∙ p.leg_id;
    fresh = λ m here. elim here [
      | inl (inl e) ↦ q.fresh m (inr (p.fresh m (inl (inl e))))
      | inl (inr e) ↦ q.fresh m (inl (subst (λ x. In x ls) (sym p.leg_id) e))
      | inr f ↦ q.fresh m (inr (p.fresh m (inr f)))
    ];
  }

  -- the quotes of a leg, refreshed
  abbrev refreshed_db : String → List String → LegRow M → Db M → Db M
  refreshed_db l ids leg db = record db {
    quotes = record { entries = map (refresh_row l ids leg.frozen_view) db.quotes.entries };
  }

  refresh_row-key :
      (l : String) (ids : List String) (view : M) (e : String × QuoteRow M)
      → (refresh_row l ids view e).0 ≡ e.0
  refresh_row-key l ids view e = ground arith

  -- The refresh finds every leg of the query, and leaves each quote as `Refreshed` says.
  pub refresh_all-Refreshed :
      (q : String) (ls ids : List String) (db : Db M)
      → All (HasLeg q db.legs) ls
      → (db' : Db M) × (refresh_all q ls ids db ≡ some db')
        × (db'.legs ≡ db.legs)
        × (db'.change_log ≡ db.change_log)
        × ((id : String) (row : QuoteRow M)
            → Dict.get id db.quotes ≡ some row
            → (row' : QuoteRow M) × (Dict.get id db'.quotes ≡ some row')
              × Refreshed ls ids db.legs id row row')
  unfolding refresh_all
  refresh_all-Refreshed q [] ids db h = (
    db,
    refl,
    refl,
    refl,
    λ id row found. (
      row,
      found,
      record {
        status = refl;
        leg_id = refl;
        fresh = λ m here. elim here [ inl e ↦ absurd e | inr f ↦ f ];
      },
    ),
  )
  refresh_all-Refreshed q (l ∷ ls) ids db ((leg, found, own), h) =
      let db1 = refreshed_db l ids leg db in
      let (db2, run, legs, log, rows) = refresh_all-Refreshed q ls ids db1 h in
      let same : (leg.query_id == q) ≡ true = (eq_iff leg.query_id q).1 own in
      (
        db2,
        rw (refresh_all, found, same) run,
        legs,
        log,
        λ id row here.
            let row1 = (refresh_row l ids leg.frozen_view (id, row)).1 in
            let (row2, there, fresh) = rows id row1 (
              Dict.get-map (refresh_row l ids leg.frozen_view) id db.quotes
                (refresh_row-key l ids leg.frozen_view)
              ∙ ap (Option.map (λ v. (refresh_row l ids leg.frozen_view (id, v)).1)) here) in
            (
              row2,
              there,
              Refreshed-trans l id ls ids db.legs row row1 row2
                  (refresh_leg-Refreshed l id ids db leg row found) fresh,
            ),
      )
