-- ===== src/Changes/Mediator/Safety.antt =====
-- What the one door for mutations holds back.
use logistics.Common.{
  ◌≡◌, refl, ap, ◌∙◌, ◌↔◌, inr, true, none, some, List, [], All, In, String, ◌≤◌,
}
use logistics.Common.Images.{map-In}
use logistics.Findings.{Finding, FindingScope}
use logistics.Changes.Impact.{ImpactClass, impact_rank, change_order, decide_path, ImpactRegistry}
use logistics.Changes.Impact.Fork.{decide_path_iff}
use logistics.Changes.Store.{QuoteRow, QuoteRef, Db}
use logistics.Changes.Scope.{
  ChangeRequest, classified, classify, is_uuid, leg_ids, downstream_work, ref_of,
}
use logistics.Changes.Scope.Live.{IsLive, InScope, downstream_work_iff}
use logistics.Changes.Fire.{done}
use logistics.Changes.Order.{
  PreviewQuote, ChangeOrderPreview, preview_quotes, reason_of, live_refs, legs_with_live_quotes,
  invalidating_of, refreshing_of, run_change_order,
}
use logistics.Changes.Order.Radius.{
  IsDoomed, IsPending, IsTouched, invalidating_iff, refreshing_iff, affected_iff,
}
use logistics.Changes.Mediator.{mediate}

module _ {M : Type 0} where
  -- what the preview shows of a row
  abbrev pub shown : String × QuoteRow M → PreviewQuote
  shown e = record { quote_id = e.0; freight_forwarder_id = e.1.freight_forwarder_id }

  -- the quotes that a preview shows, where their references are known
  shown_iff :
      (P : String × QuoteRow M → Type 0) (quotes : List QuoteRef)
      → ((q : QuoteRef) → In q quotes ↔ ((e : String × QuoteRow M) × P e × (q ≡ ref_of e)))
      → (p : PreviewQuote)
      → In p (preview_quotes quotes) ↔ ((e : String × QuoteRow M) × P e × (p ≡ shown e))
  shown_iff P quotes known p =
      let (a, b) =
        map-In
          (λ (q : QuoteRef). record {
            quote_id = q.quote_id;
            freight_forwarder_id = q.freight_forwarder_id;
          })
          quotes p in
      (
        λ h.
            let (q, m, at) = a h in
            let (e, holds, same) = (known q).0 m in
            (
              e,
              holds,
              at
                  ∙ ap
                      (λ (r : QuoteRef). record {
                        quote_id = r.quote_id;
                        freight_forwarder_id = r.freight_forwarder_id;
                      })
                      same,
            ),
        λ h. let (e, holds, at) = h in b (ref_of e, (known (ref_of e)).1 (e, holds, refl), at),
      )

module _ {M : Type 0} (registry : ImpactRegistry) (revalidate : Db M → List Finding)
    (req : ChangeRequest) (uow : Db M → Db M) (db : Db M) (c : ImpactClass)
    (scope : List FindingScope) where
  mediate-change_order :
      classify registry req db ≡ classified c scope
      → decide_path c (downstream_work scope db) ≡ change_order
      → mediate registry revalidate req uow db
        ≡ inr (
            run_change_order req
              (record { impact_class = c; scope = scope; path = change_order })
              uow
              db)
  unfolding mediate run_change_order
  mediate-change_order known path = rw (mediate, known, path)

  -- An RFQ-defining or heavier edit, sent without a reason while some quote on a leg of its scope is
  -- live, leaves the database as it was and answers with a preview. The preview lists exactly the
  -- quotes of the scope that hold a price (QUOTED, PENDING_APPROVAL, APPROVED, or EXPIRED after it was
  -- submitted) as those to invalidate, exactly the RFQ_SENT ones as those to refresh, and exactly the
  -- legs of either. (The scope's leg ids are well formed.)
  pub mediate-unconfirmed :
      classify registry req db ≡ classified c scope
      → 2 ≤ impact_rank c
      → All (λ id. is_uuid id ≡ true) (leg_ids scope)
      → ((e : String × QuoteRow M) × InScope scope db e × IsLive e.1)
      → reason_of req.reason ≡ none
      → (preview : ChangeOrderPreview) × (mediate registry revalidate req uow db
          ≡ inr (
            done db,
            record {
              path = change_order;
              impact_class = c;
              scope = scope;
              findings = [];
              preview = some preview;
            },
          ))
        × (preview.impact_class ≡ c)
        × ((p : PreviewQuote)
            → In p preview.invalidating_quotes
              ↔ ((e : String × QuoteRow M) × IsDoomed scope db e × (p ≡ shown e)))
        × ((p : PreviewQuote)
            → In p preview.refreshing_quotes
              ↔ ((e : String × QuoteRow M) × IsPending scope db e × (p ≡ shown e)))
        × ((l : String)
            → In l preview.affected_legs
              ↔ ((e : String × QuoteRow M) × IsTouched scope db e × (l ≡ e.1.leg_id)))
  unfolding run_change_order
  mediate-unconfirmed known heavy ids live silent =
      let path =
        (decide_path_iff c (downstream_work scope db)).0.1
          (heavy, (downstream_work_iff scope db ids).1 live) in
      (
        record {
          affected_legs = legs_with_live_quotes (live_refs scope db);
          invalidating_quotes = preview_quotes (invalidating_of (live_refs scope db));
          refreshing_quotes = preview_quotes (refreshing_of (live_refs scope db));
          impact_class = c;
        },
        mediate-change_order known path ∙ ap inr (rw (run_change_order, silent) refl),
        refl,
        shown_iff (IsDoomed scope db) (invalidating_of (live_refs scope db))
            (invalidating_iff scope db),
        shown_iff (IsPending scope db) (refreshing_of (live_refs scope db))
            (refreshing_iff scope db),
        affected_iff scope db,
      )
