-- ===== src/Rfq/Selection/After.antt =====
-- The rows after a selection: those that it leaves, and those that it adds.
use logistics.Common.{
  ◌≡◌, ◌↔◌, ◌⊎◌, refl, sym, subst, ap, ◌∙◌, inl, inr, Bool, true, false, ◌&&◌, not, none, List, [],
  ◌∷◌, String, arith, In, IsDistinct, string_eq, nat_eq, eq_iff, filter, includes, includes_iff,
  Bool-cases,
}
use logistics.Common.Dict
use logistics.Common.Dict.{Dict}
use logistics.Common.Images.{filter-In_iff}
use logistics.Status.Vocabulary.{quote_status_eq}
use logistics.Changes.Store.{QuoteRow, Db}
use logistics.Rfq.Selection.{
  is_select, current_sel, frozen, to_add, to_remove, new_quote, delete_all, write_selection,
}
use logistics.Rfq.Selection.Wanted.{
  delete_all-In, create_all-In, get-delete_all, is_selected_on, OneEach, current_sel-In, frozen-In,
  to_remove-In,
}

filter_once : (p : String → Bool) (xs : List String) → IsDistinct xs → IsDistinct (filter p xs)
filter_once p [] d = tt
filter_once p (x ∷ xs) (once, d) = elim (Bool-cases (p x)) [
  | inl keep ↦ rw keep (λ m. once ((filter-In_iff p xs x).0 m).0, filter_once p xs d)
  | inr leave ↦ rw leave (filter_once p xs d)
]

-- The ids that the database gives to the forwarders are those of no row, and differ from one another.
pub record IsFresh {M : Type 0} (new_id : String → String) (ffs : List String)
    (d : Dict (QuoteRow M)) : Type 0 where
  pub new : (ff : String) → In ff ffs → Dict.get (new_id ff) d ≡ none
  pub own : (a b : String) → new_id a ≡ new_id b → a ≡ b

module _ {M : Type 0} (new_id : String → String) (query_id leg_id : String) (wanted : List String)
    (db : Db M) (fresh : IsFresh new_id wanted db.quotes) (keys : IsDistinct (Dict.keys db.quotes))
    (each : OneEach db.quotes) (once : IsDistinct wanted) where
  abbrev after : Db M
  after = write_selection new_id query_id leg_id wanted db

  abbrev IsDropped : String × QuoteRow M → Type 0
  IsDropped e =
      (is_selected_on leg_id e ≡ true) × (includes wanted e.1.freight_forwarder_id ≡ false)

  abbrev IsAdded : String × QuoteRow M → Type 0
  IsAdded e =
      (ff : String) × In ff (to_add leg_id wanted db)
      × (e ≡ (new_id ff, new_quote query_id leg_id ff))

  after-In :
      (e : String × QuoteRow M)
      → In e after.quotes.entries ↔ ((In e db.quotes.entries × ¬ IsDropped e) ⊎ IsAdded e)
  after-In e =
      let removed = to_remove leg_id wanted db in
      let (to, from) =
        create_all-In new_id fresh.own query_id leg_id (to_add leg_id wanted db)
          (delete_all removed db.quotes) e (filter_once _ wanted once)
          (λ ff m.
            get-delete_all removed db.quotes (new_id ff)
              (fresh.new ff ((filter-In_iff _ wanted ff).0 m).0)) in
      let (left_to, left_from) = delete_all-In removed db.quotes e in
      (
        λ m. elim (to m) [
          | inl left ↦
              let (member, stays) = left_to left in
              inl (member, λ drop. stays ((to_remove-In leg_id wanted db e keys member).1 drop))
          | inr added ↦ inr added
        ],
        λ h. elim h [
          | inl (member, stays) ↦ from (
              inl (
                left_from (member, λ m. stays ((to_remove-In leg_id wanted db e keys member).0 m))))
          | inr added ↦ from (inr added)
        ],
      )

  to_add-In :
      (ff : String)
      → In ff (to_add leg_id wanted db)
        ↔ (In ff wanted × ¬ In ff (current_sel leg_id db) × ¬ In ff (frozen leg_id db))
  to_add-In ff = ground (
    arith,
    filter-In_iff
        (λ id. not (includes (current_sel leg_id db) id) && not (includes (frozen leg_id db) id))
        wanted ff,
    includes_iff (current_sel leg_id db) ff,
    includes_iff (frozen leg_id db) ff,
  )

  added-on :
      (ff : String) → is_selected_on leg_id (new_id ff, new_quote {M = M} query_id leg_id ff) ≡ true
  added-on ff = ground (arith, eq_iff leg_id leg_id)

  on_leg : (e : String × QuoteRow M) → is_selected_on leg_id e ≡ true → e.1.leg_id ≡ leg_id
  on_leg e on = (eq_iff e.1.leg_id leg_id).0 (ground (arith, on))

  pub selected-wanted :
      (ff : String) → In ff (current_sel leg_id after) → In ff wanted × ¬ In ff (frozen leg_id db)
  selected-wanted ff m =
      let (e, member, on, same) = (current_sel-In leg_id after ff).0 m in
      elim ((after-In e).0 member) [
        | inl (here, stays) ↦ (
          elim (Bool-cases (includes wanted e.1.freight_forwarder_id)) [
            | inl want ↦
                subst (λ x. In x wanted) (sym same)
                  ((includes_iff wanted e.1.freight_forwarder_id).0 want)
            | inr drop ↦ absurd (stays (on, drop))
          ],
          λ m.
              let (f, there, at, out, same_f) = (frozen-In leg_id db ff).0 m in
              let one = each e f here there (on_leg e on ∙ sym at) (sym same ∙ same_f) in
              ground (arith, on, out, ap is_select one),
        )
        | inr (f, there, is_new) ↦
            let (want, _, thawed) = (to_add-In f).0 there in
            let at : f ≡ ff = sym (same ∙ ap (λ x. x.1.freight_forwarder_id) is_new) in
            (subst (λ x. In x wanted) at want, subst (λ x. ¬ In x (frozen leg_id db)) at thawed)
      ]

  pub wanted-selected :
      (ff : String) → In ff wanted → ¬ In ff (frozen leg_id db) → In ff (current_sel leg_id after)
  wanted-selected ff want thawed = elim (Bool-cases (includes (current_sel leg_id db) ff)) [
    | inl already ↦
        let (e, here, on, same) =
          (current_sel-In leg_id db ff).0 ((includes_iff (current_sel leg_id db) ff).0 already) in
        let asked =
          (includes_iff wanted e.1.freight_forwarder_id).1 (subst (λ x. In x wanted) same want) in
        (current_sel-In leg_id after ff).1
          (e, (after-In e).1 (inl (here, λ drop. ground (arith, drop, asked))), on, same)
    | inr new ↦
        let add =
          (to_add-In ff).1 (
            want,
            λ m. ground (arith, (includes_iff (current_sel leg_id db) ff).1 m, new),
            thawed,
          ) in
        let e : String × QuoteRow M = (new_id ff, new_quote query_id leg_id ff) in
        (current_sel-In leg_id after ff).1
          (e, (after-In e).1 (inr (ff, add, refl)), added-on ff, refl)
  ]

  pub others_same :
      (e : String × QuoteRow M)
      → (In e after.quotes.entries × (is_selected_on leg_id e ≡ false))
        ↔ (In e db.quotes.entries × (is_selected_on leg_id e ≡ false))
  others_same e = (
    λ h. elim ((after-In e).0 h.0) [
      | inl (here, _) ↦ (here, h.1)
      | inr (f, _, is_new) ↦
          absurd (ground (arith, h.1, ap (is_selected_on leg_id) is_new, added-on f))
    ],
    λ h. ((after-In e).1 (inl (h.0, λ drop. ground (arith, drop, h.1))), h.1),
  )

  -- a row that was there is of no forwarder that was added
  apart :
      (a : String × QuoteRow M) (ff : String)
      → In a db.quotes.entries
      → In ff (to_add leg_id wanted db)
      → a.1.leg_id ≡ leg_id
      → a.1.freight_forwarder_id ≡ ff
      → ⊥
  apart a ff here add at same =
      let (_, new, thawed) = (to_add-In ff).0 add in
      elim (Bool-cases (is_select a)) [
        | inl on ↦ new (
            (current_sel-In leg_id db ff).1
              (a, here, ground (arith, on, (eq_iff a.1.leg_id leg_id).1 at), sym same))
        | inr out ↦ thawed ((frozen-In leg_id db ff).1 (a, here, at, out, sym same))
      ]

  pub after-OneEach : OneEach after.quotes
  after-OneEach a b ma mb leg ff = elim ((after-In a).0 ma) [
    | inl (here, _) ↦ elim ((after-In b).0 mb) [
      | inl (there, _) ↦ each a b here there leg ff
      | inr (f, add, is_new) ↦ absurd (
          apart a f here add (leg ∙ ap (λ x. x.1.leg_id) is_new)
            (ff ∙ ap (λ x. x.1.freight_forwarder_id) is_new))
    ]
    | inr (f, add, is_new) ↦ elim ((after-In b).0 mb) [
      | inl (there, _) ↦ absurd (
          apart b f there add (sym leg ∙ ap (λ x. x.1.leg_id) is_new)
            (sym ff ∙ ap (λ x. x.1.freight_forwarder_id) is_new))
      | inr (g, _, is_new') ↦
          let same : f ≡ g =
            sym (ap (λ x. x.1.freight_forwarder_id) is_new)
            ∙ ff
            ∙ ap (λ x. x.1.freight_forwarder_id) is_new' in
          is_new ∙ ap (λ x. (new_id x, new_quote query_id leg_id x)) same ∙ sym is_new'
    ]
  ]
