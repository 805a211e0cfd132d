-- ===== src/Changes/Order/Radius.antt =====
-- What a change order invalidates, refreshes and reopens, read off the rows.
use logistics.Common.{
  ◌≡◌, refl, sym, subst, ap, ◌∙◌, ◌↔◌, true, not, List, map, String, arith, In, string_eq,
}
use logistics.Common.Images.{map-In, filter-In_iff}
use logistics.Findings.{FindingScope}
use logistics.Status.Vocabulary.{QuoteStatus}
use logistics.Changes.Store.{QuoteRow, QuoteRef, Db}
use logistics.Changes.Scope.{ref_of, find_live_quotes, leg_ids}
use logistics.Changes.Scope.Live.{IsPriced, IsLive, InScope, find_live_quotes_iff}
use logistics.Changes.Order.{
  live_refs, invalidating_of, refreshing_of, legs_with_live_quotes, invalidated_by_change_order,
}
use logistics.Changes.Order.Partition.{legs_with_live_quotes_iff}

invalidated_iff :
    {M : Type 0} (q : QuoteRow M)
    → (IsLive q × (invalidated_by_change_order q.status ≡ true)) ↔ IsPriced q
unfolding invalidated_by_change_order
invalidated_iff q = ground arith

refreshed_iff :
    {M : Type 0} (q : QuoteRow M)
    → (IsLive q × (not (invalidated_by_change_order q.status) ≡ true))
      ↔ (q.status ≡ QuoteStatus.rfq_sent)
unfolding invalidated_by_change_order
refreshed_iff q = ground arith

module _ {M : Type 0} (scope : List FindingScope) (db : Db M) where
  -- the quote holds a price that the change makes void
  abbrev pub IsDoomed : String × QuoteRow M → Type 0
  IsDoomed e = InScope scope db e × IsPriced e.1

  -- the quote waits for an answer, which is then to the changed leg
  abbrev pub IsPending : String × QuoteRow M → Type 0
  IsPending e = InScope scope db e × (e.1.status ≡ QuoteStatus.rfq_sent)

  -- the quote is live, and its leg is to be quoted anew
  abbrev pub IsTouched : String × QuoteRow M → Type 0
  IsTouched e = InScope scope db e × IsLive e.1

  live_refs_iff :
      (q : QuoteRef)
      → In q (live_refs scope db) ↔ ((e : String × QuoteRow M) × IsTouched e × (q ≡ ref_of e))
  unfolding live_refs
  live_refs_iff q =
      let (a, b) = map-In ref_of (find_live_quotes (leg_ids scope) db) q in
      (
        λ h. let (e, m, same) = a h in (e, (find_live_quotes_iff scope db e).0 m, same),
        λ h. b (h.0, (find_live_quotes_iff scope db h.0).1 h.1, h.2),
      )

  pub invalidating_iff :
      (q : QuoteRef)
      → In q (invalidating_of (live_refs scope db))
        ↔ ((e : String × QuoteRow M) × IsDoomed e × (q ≡ ref_of e))
  unfolding invalidating_of
  invalidating_iff q =
      let (a, b) =
        filter-In_iff (λ (r : QuoteRef). invalidated_by_change_order r.status) (live_refs scope db)
          q in
      (
        λ h.
            let (m, out) = a h in
            let (e, (there, live), same) = (live_refs_iff q).0 m in
            (
              e,
              (
                there,
                (invalidated_iff e.1).0 (
                  live,
                  subst (λ (r : QuoteRef). invalidated_by_change_order r.status ≡ true) same out,
                ),
              ),
              same,
            ),
        λ h.
            let (e, (there, priced), same) = h in
            let (live, out) = (invalidated_iff e.1).1 priced in
            b (
              (live_refs_iff q).1 (e, (there, live), same),
              subst (λ (r : QuoteRef). invalidated_by_change_order r.status ≡ true) (sym same) out,
            ),
      )

  pub refreshing_iff :
      (q : QuoteRef)
      → In q (refreshing_of (live_refs scope db))
        ↔ ((e : String × QuoteRow M) × IsPending e × (q ≡ ref_of e))
  unfolding refreshing_of
  refreshing_iff q =
      let (a, b) =
        filter-In_iff (λ (r : QuoteRef). not (invalidated_by_change_order r.status))
          (live_refs scope db) q in
      (
        λ h.
            let (m, stays) = a h in
            let (e, (there, live), same) = (live_refs_iff q).0 m in
            (
              e,
              (
                there,
                (refreshed_iff e.1).0 (
                  live,
                  subst (λ (r : QuoteRef). not (invalidated_by_change_order r.status) ≡ true) same
                      stays,
                ),
              ),
              same,
            ),
        λ h.
            let (e, (there, sent), same) = h in
            let (live, stays) = (refreshed_iff e.1).1 sent in
            b (
              (live_refs_iff q).1 (e, (there, live), same),
              subst (λ (r : QuoteRef). not (invalidated_by_change_order r.status) ≡ true) (sym same)
                  stays,
            ),
      )

  pub affected_iff :
      (l : String)
      → In l (legs_with_live_quotes (live_refs scope db))
        ↔ ((e : String × QuoteRow M) × IsTouched e × (l ≡ e.1.leg_id))
  affected_iff l =
      let (a, b) = (legs_with_live_quotes_iff (live_refs scope db)).1 l in
      (
        λ h.
            let (q, m, at) = a h in
            let (e, t, same) = (live_refs_iff q).0 m in
            (e, t, at ∙ ap (λ (r : QuoteRef). r.leg_id) same),
        λ h. let (e, t, at) = h in b (ref_of e, (live_refs_iff (ref_of e)).1 (e, t, refl), at),
      )

  -- the ids of such a list, where its members are known
  pub ids_iff :
      (P : String × QuoteRow M → Type 0) (quotes : List QuoteRef)
      → ((q : QuoteRef) → In q quotes ↔ ((e : String × QuoteRow M) × P e × (q ≡ ref_of e)))
      → (id : String)
      → In id (map (λ q. q.quote_id) quotes) ↔ ((e : String × QuoteRow M) × P e × (id ≡ e.0))
  ids_iff P quotes known id =
      let (a, b) = map-In (λ (q : QuoteRef). q.quote_id) quotes id in
      (
        λ h.
            let (q, m, at) = a h in
            let (e, p, same) = (known q).0 m in (e, p, at ∙ ap (λ (r : QuoteRef). r.quote_id) same),
        λ h. let (e, p, at) = h in b (ref_of e, (known (ref_of e)).1 (e, p, refl), at),
      )
