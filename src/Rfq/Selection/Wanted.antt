-- ===== src/Rfq/Selection/Wanted.antt =====
-- The rows that a selection reads and writes: what is selected, frozen, removed and added.
use logistics.Common.{
  ◌≡◌, ◌↔◌, ◌⊎◌, refl, sym, subst, ap, ◌∙◌, inl, inr, Bool, true, false, ◌&&◌, not, none, List, [],
  ◌∷◌, String, arith, In, IsDistinct, ◌==◌, string_eq, nat_eq, eq_iff, filter, includes, Bool-cases,
}
use mathlib.Core.Option.{some_inj}
use logistics.Common.Dict
use logistics.Common.Dict.{Dict}
use logistics.Common.Images.{map-In, filter-In_iff}
use logistics.Status.Vocabulary.{QuoteStatus, quote_status_eq}
use logistics.Changes.Store.{QuoteRow, Db}
use logistics.Rfq.Selection.{
  is_select, existing, current_sel, frozen, to_remove, new_quote, delete_all, create_all,
}

module _ {M : Type 0} where
  pub delete_all-In :
      (ids : List String) (d : Dict (QuoteRow M)) (e : String × QuoteRow M)
      → In e (delete_all ids d).entries ↔ (In e d.entries × ¬ In e.0 ids)
  unfolding delete_all
  delete_all-In [] d e = (λ m. (m, λ n. n), λ h. h.0)
  delete_all-In (id ∷ ids) d e =
      let (to, from) = delete_all-In ids (Dict.delete id d) e in
      let (split, join) = Dict.In-delete_iff id d e in
      (
        λ m.
            let (left, other) = to m in
            let (there, far) = split left in
            (there, λ n. elim n [ inl here ↦ far here | inr n' ↦ other n' ]),
        λ h. from (join (h.0, λ here. h.1 (inl here)), λ n. h.1 (inr n)),
      )

  module _ (new_id : String → String) (own : (a b : String) → new_id a ≡ new_id b → a ≡ b)
      (query_id leg_id : String) where
    pub create_all-In :
        (ffs : List String) (d : Dict (QuoteRow M)) (e : String × QuoteRow M)
        → IsDistinct ffs
        → ((ff : String) → In ff ffs → Dict.get (new_id ff) d ≡ none)
        → In e (create_all new_id query_id leg_id ffs d).entries ↔ (
            In e d.entries
            ⊎ ((ff : String) × In ff ffs × (e ≡ (new_id ff, new_quote query_id leg_id ff))))
    unfolding create_all
    create_all-In [] d e distinct new = (λ m. inl m, λ h. elim h [ inl m ↦ m | inr x ↦ absurd x.1 ])
    create_all-In (ff ∷ ffs) d e (once, distinct) new =
        let quote : QuoteRow M = new_quote query_id leg_id ff in
        let (to, from) = create_all-In ffs (Dict.set (new_id ff) quote d) e distinct (λ f m.
          let other : (new_id ff == new_id f) ≡ false = elim (Bool-cases (new_id ff == new_id f)) [
            | inl same ↦ absurd (
                once (
                  subst (λ x. In x ffs) (sym (own ff f ((eq_iff (new_id ff) (new_id f)).0 same)))
                    m))
            | inr n ↦ n
          ] in
          Dict.get-set (new_id ff) (new_id f) quote d ∙ rw other (new f (inr m))) in
        let (split, join) = Dict.In-set_iff (new_id ff) quote d e (new ff (inl refl)) in
        (
          λ m. elim (to m) [
            | inl m' ↦ elim (split m') [
              | inl there ↦ inl there
              | inr added ↦ inr (ff, inl refl, added)
            ]
            | inr (f, there, added) ↦ inr (f, inr there, added)
          ],
          λ h. elim h [
            | inl m ↦ from (inl (join (inl m)))
            | inr (f, there, added) ↦ elim there [
              | inl same ↦ from (
                  inl (join (inr (added ∙ ap (λ x. (new_id x, new_quote query_id leg_id x)) same))))
              | inr there' ↦ from (inr (f, there', added))
            ]
          ],
        )

  pub get-delete_all :
      (ids : List String) (d : Dict (QuoteRow M)) (k : String)
      → Dict.get k d ≡ none
      → Dict.get k (delete_all ids d) ≡ none
  unfolding delete_all
  get-delete_all [] d k h = h
  get-delete_all (id ∷ ids) d k h =
      get-delete_all ids (Dict.delete id d) k (ground (arith, Dict.get-delete id k d, h))

  -- the entry is a quote of the leg that was not sent
  abbrev pub is_selected_on : String → String × QuoteRow M → Bool
  is_selected_on leg_id e = e.1.leg_id == leg_id && is_select e

  -- A leg has one quote of a forwarder.
  abbrev pub OneEach : Dict (QuoteRow M) → Type 0
  OneEach d =
      (a b : String × QuoteRow M)
      → In a d.entries
      → In b d.entries
      → a.1.leg_id ≡ b.1.leg_id
      → a.1.freight_forwarder_id ≡ b.1.freight_forwarder_id
      → a ≡ b

  selected-In :
      (leg_id : String) (db : Db M) (e : String × QuoteRow M)
      → In e (filter is_select (existing leg_id db))
        ↔ (In e db.quotes.entries × (is_selected_on leg_id e ≡ true))
  selected-In leg_id db e = ground (
    arith,
    filter-In_iff is_select (existing leg_id db) e,
    filter-In_iff (λ e. e.1.leg_id == leg_id) db.quotes.entries e,
  )

  pub current_sel-In :
      (leg_id : String) (db : Db M) (ff : String)
      → In ff (current_sel leg_id db) ↔ (
          (e : String × QuoteRow M) × In e db.quotes.entries
          × (is_selected_on leg_id e ≡ true)
          × (ff ≡ e.1.freight_forwarder_id))
  current_sel-In leg_id db ff =
      let (to, from) =
        map-In (λ (e : String × QuoteRow M). e.1.freight_forwarder_id)
          (filter is_select (existing leg_id db)) ff in
      (
        λ m.
            let (e, there, same) = to m in
            let (member, on) = (selected-In leg_id db e).0 there in (e, member, on, same),
        λ h.
            let (e, member, on, same) = h in
            from (e, (selected-In leg_id db e).1 (member, on), same),
      )

  pub frozen-In :
      (leg_id : String) (db : Db M) (ff : String)
      → In ff (frozen leg_id db) ↔ (
          (e : String × QuoteRow M) × In e db.quotes.entries
          × (e.1.leg_id ≡ leg_id)
          × (is_select e ≡ false)
          × (ff ≡ e.1.freight_forwarder_id))
  frozen-In leg_id db ff =
      let sent = λ (e : String × QuoteRow M). not (is_select e) in
      let (to, from) =
        map-In (λ (e : String × QuoteRow M). e.1.freight_forwarder_id)
          (filter sent (existing leg_id db)) ff in
      (
        λ m.
            let (e, there, same) = to m in
            let (here, out) = (filter-In_iff sent (existing leg_id db) e).0 there in
            let (member, at) =
              (filter-In_iff (λ e. e.1.leg_id == leg_id) db.quotes.entries e).0 here in
            (e, member, (eq_iff e.1.leg_id leg_id).0 at, ground (arith, out), same),
        λ h.
            let (e, member, at, out, same) = h in
            let here =
              (filter-In_iff (λ e. e.1.leg_id == leg_id) db.quotes.entries e).1
                (member, (eq_iff e.1.leg_id leg_id).1 at) in
            from
              (e, (filter-In_iff sent (existing leg_id db) e).1 (here, ground (arith, out)), same),
      )

  same_key :
      (d : Dict (QuoteRow M)) (a b : String × QuoteRow M)
      → IsDistinct (Dict.keys d)
      → In a d.entries
      → In b d.entries
      → a.0 ≡ b.0
      → a.1 ≡ b.1
  same_key d a b distinct ma mb same = some_inj.0 (
      sym (Dict.get-In d a.0 a.1 distinct ma)
      ∙ ap (λ k. Dict.get k d) same
      ∙ Dict.get-In d b.0 b.1 distinct mb)

  pub to_remove-In :
      (leg_id : String) (wanted : List String) (db : Db M) (e : String × QuoteRow M)
      → IsDistinct (Dict.keys db.quotes)
      → In e db.quotes.entries
      → In e.0 (to_remove leg_id wanted db)
        ↔ ((is_selected_on leg_id e ≡ true) × (includes wanted e.1.freight_forwarder_id ≡ false))
  to_remove-In leg_id wanted db e distinct member =
      let unwanted = λ (e : String × QuoteRow M). not (includes wanted e.1.freight_forwarder_id) in
      let rows = filter is_select (existing leg_id db) in
      let (to, from) = map-In (λ (e : String × QuoteRow M). e.0) (filter unwanted rows) e.0 in
      (
        λ m.
            let (f, there, same) = to m in
            let (chosen, drop) = (filter-In_iff unwanted rows f).0 there in
            let (member_f, on) = (selected-In leg_id db f).0 chosen in
            let row : f.1 ≡ e.1 = sym (same_key db.quotes e f distinct member member_f same) in
            (
              subst (λ r. (r.leg_id == leg_id && r.status == QuoteStatus.select) ≡ true) row on,
              subst (λ r. includes wanted r.freight_forwarder_id ≡ false) row
                  (ground (arith, drop)),
            ),
        λ h. from (
          e,
          (filter-In_iff unwanted rows e).1
              ((selected-In leg_id db e).1 (member, h.0), ground (arith, h.1)),
          refl,
        ),
      )
