-- ===== src/Rfq/Selection/Chosen.antt =====
-- The forwarders that a selection leaves: those that are wanted and were not sent a request before.
use logistics.Common.{
  ◌≡◌, ◌↔◌, refl, ap, Bool, true, false, List, [], ◌∷◌, String, arith, In, All, All-In, In-All,
  IsDistinct, ◌==◌, string_eq, nat_eq, length, filter,
}
use logistics.Common.Dict
use logistics.Common.Dict.{Dict}
use logistics.Status.Vocabulary.{quote_status_eq}
use logistics.Changes.Store.{QuoteRow}
use logistics.Changes.Scope.{unique}
use logistics.Changes.Scope.Unique.{unique-In, unique-IsDistinct}
use logistics.Award.{AwardDb, is_locked}
use logistics.Rfq.Selection.{
  selected, is_active_forwarder, leg_of_query, current_sel, frozen, write_selection,
  set_ff_selection,
}
use logistics.Rfq.Selection.Wanted.{is_selected_on, OneEach}
use logistics.Rfq.Selection.After.{
  IsFresh, selected-wanted, wanted-selected, others_same, after-OneEach,
}

filter_full : (p : String → Bool) (xs : List String) → All (λ x. p x ≡ true) xs → filter p xs ≡ xs
filter_full p [] h = refl
filter_full p (x ∷ xs) (h, hs) = rw h (ap (λ ys. x ∷ ys) (filter_full p xs hs))

active-length :
    (p : String → Bool) (xs : List String)
    → All (λ x. p x ≡ true) xs
    → (length (filter p xs) == length xs) ≡ true
active-length p xs h = rw (filter_full p xs h) (ground arith)

module _ {M : Type 0} where
  -- Selecting forwarders, all of them active, for a leg of a query that is not locked, where the ids of the
  -- quotes are distinct, a leg has at most one quote of a forwarder and the database gives fresh ids: the
  -- call succeeds; it returns those of the given forwarders that the leg was not sent to before; every other
  -- quote, of another leg or past SELECT, is left as it was, and none is added; and a leg still has at most
  -- one quote of a forwarder.
  pub set_ff_selection-frozen :
      (new_id : String → String) (statuses : Dict String) (query_id leg_id : String)
      (ff_ids : List String) (db : AwardDb M)
      → is_locked query_id db ≡ false
      → leg_of_query query_id (Dict.get leg_id db.rows.legs) ≡ true
      → All (λ id. is_active_forwarder statuses id ≡ true) ff_ids
      → IsFresh new_id ff_ids db.rows.quotes
      → IsDistinct (Dict.keys db.rows.quotes)
      → OneEach db.rows.quotes
      → (ffs : List String) × (after : AwardDb M) × (set_ff_selection new_id statuses query_id
            leg_id ff_ids db
          ≡ selected ffs after)
        × ((ff : String) → In ff ffs ↔ (In ff ff_ids × ¬ In ff (frozen leg_id db.rows)))
        × ((e : String × QuoteRow M)
            → (In e after.rows.quotes.entries × (is_selected_on leg_id e ≡ false))
              ↔ (In e db.rows.quotes.entries × (is_selected_on leg_id e ≡ false)))
        × OneEach after.rows.quotes
  unfolding set_ff_selection
  set_ff_selection-frozen new_id statuses query_id leg_id ff_ids db open_ leg active given keys
        each =
      let wanted = unique ff_ids in
      let rows = write_selection new_id query_id leg_id wanted db.rows in
      let once = unique-IsDistinct ff_ids in
      let fresh : IsFresh new_id wanted db.rows.quotes = record {
        new = λ ff m. given.new ff ((unique-In ff_ids ff).0 m);
        own = given.own;
      } in
      let all_active = active-length (is_active_forwarder statuses) wanted (
        In-All (λ id. is_active_forwarder statuses id ≡ true) wanted
          (λ id m.
            All-In (λ id. is_active_forwarder statuses id ≡ true) ff_ids active
              ((unique-In ff_ids id).0 m))) in
      (
        current_sel leg_id rows,
        record db { rows = rows },
        rw (set_ff_selection, open_, leg, all_active) refl,
        λ ff. (
          λ m.
              let (want, thawed) =
                selected-wanted new_id query_id leg_id wanted db.rows fresh keys each once ff m in
              ((unique-In ff_ids ff).0 want, thawed),
          λ h.
              wanted-selected new_id query_id leg_id wanted db.rows fresh keys each once ff
                ((unique-In ff_ids ff).1 h.0) h.1,
        ),
        λ e. others_same new_id query_id leg_id wanted db.rows fresh keys each once e,
        after-OneEach new_id query_id leg_id wanted db.rows fresh keys each once,
      )
