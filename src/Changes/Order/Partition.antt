-- ===== src/Changes/Order/Partition.antt =====
-- Which quotes a change order invalidates, which it refreshes, and which legs it reopens.
use logistics.Common.{
  ◌≡◌, ◌↔◌, ◌⊎◌, inl, inr, true, false, not, some, List, map, String, arith, In, IsDistinct,
  includes_iff, string_eq,
}
use logistics.Findings.{FindingScope}
use logistics.Status.Vocabulary.{
  QuoteStatus, QuoteEvent, quote_status_eq, quote_event_eq, leg_status_eq, leg_event_eq,
}
use logistics.Status.Machine.{find_transition, next_state}
use logistics.Status.Machines.{quote_app}
use logistics.Changes.Store.{QuoteRow, QuoteRef, Db}
use logistics.Common.Images.{filter-In_iff, map-In}
use logistics.Changes.Scope.{is_live, ref_of, find_live_quotes, leg_ids}
use logistics.Changes.Scope.Unique.{unique-In, unique-IsDistinct}
use logistics.Changes.Order.{
  invalidated_by_change_order, live_refs, invalidating_of, refreshing_of, legs_with_live_quotes,
}

-- A live quote that is not invalidated is outstanding, and one that is invalidated has an edge to
-- INVALID.
pub live_split :
    {M : Type 0} (q : QuoteRow M)
    → is_live q ≡ true
    → ((invalidated_by_change_order q.status ≡ true)
        × (next_state quote_app q.status QuoteEvent.invalidate ≡ some QuoteStatus.invalid))
      ⊎ ((invalidated_by_change_order q.status ≡ false) × (q.status ≡ QuoteStatus.rfq_sent))
unfolding invalidated_by_change_order next_state find_transition
live_split q h = ground arith

module _ {M : Type 0} where
  pub live_refs-live :
      (scope : List FindingScope) (db : Db M) (q : QuoteRef)
      → In q (live_refs scope db)
      → (e : String × QuoteRow M) × In e db.quotes.entries
        × (is_live e.1 ≡ true)
        × (q ≡ ref_of e)
        × In e.1.leg_id (leg_ids scope)
  unfolding live_refs find_live_quotes
  live_refs-live scope db q h =
      let (e, member, same) = (map-In ref_of (find_live_quotes (leg_ids scope) db) q).0 h in
      let (there, test) = (filter-In_iff _ db.quotes.entries e).0 member in
      (e, there, ground arith, same, (includes_iff (leg_ids scope) e.1.leg_id).0 (ground arith))

  -- A change order deals with every live quote of its scope in exactly one way. It invalidates the
  -- quote, and then the quote's machine has the edge to INVALID that the cascade fires; or it
  -- refreshes it, and then the quote is still outstanding.
  pub change_order_split :
      (scope : List FindingScope) (db : Db M) (q : QuoteRef)
      → In q (live_refs scope db)
      → (In q (invalidating_of (live_refs scope db))
          × (¬ In q (refreshing_of (live_refs scope db)))
          × (next_state quote_app q.status QuoteEvent.invalidate ≡ some QuoteStatus.invalid))
        ⊎ (In q (refreshing_of (live_refs scope db))
            × (¬ In q (invalidating_of (live_refs scope db)))
            × (q.status ≡ QuoteStatus.rfq_sent))
  unfolding invalidating_of refreshing_of
  change_order_split scope db q h =
      let (e, _, live, same, _) = live_refs-live scope db q h in
      let quotes = live_refs scope db in
      let keep = filter-In_iff (λ r. invalidated_by_change_order r.status) quotes q in
      let drop = filter-In_iff (λ r. not (invalidated_by_change_order r.status)) quotes q in
      elim (live_split e.1 live) [
        | inl (out, edge) ↦
            let out' : invalidated_by_change_order q.status ≡ true = rw same out in
            inl (keep.1 (h, out'), λ m. ground (arith, (drop.0 m).1, out'), rw same edge)
        | inr (stays, sent) ↦
            let stays' : invalidated_by_change_order q.status ≡ false = rw same stays in
            inr (
              drop.1 (h, ground (arith, stays')),
              λ m. ground (arith, (keep.0 m).1, stays'),
              rw same sent,
            )
      ]

-- The legs that a change order reopens are those that carry a live quote of the scope, each once.
pub legs_with_live_quotes_iff :
    (quotes : List QuoteRef)
    → IsDistinct (legs_with_live_quotes quotes)
      × ((l : String)
          → In l (legs_with_live_quotes quotes) ↔ ((q : QuoteRef) × In q quotes × (l ≡ q.leg_id)))
unfolding legs_with_live_quotes
legs_with_live_quotes_iff quotes = (
  unique-IsDistinct (map (λ q. q.leg_id) quotes),
  λ l.
      let u = unique-In (map (λ q. q.leg_id) quotes) l in
      let m = map-In (λ (q : QuoteRef). q.leg_id) quotes l in (λ h. m.0 (u.0 h), λ h. u.1 (m.1 h)),
)
