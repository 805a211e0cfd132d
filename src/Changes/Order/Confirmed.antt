-- ===== src/Changes/Order/Confirmed.antt =====
-- A confirmed change order, from the live quotes of its scope to the last status event.
use logistics.Common.{
  ◌≡◌, refl, sym, subst, ap, ◌∙◌, ◌↔◌, inl, inr, true, some, List, ◌∷◌, map, String, arith, In, All,
  All-In, In-All, IsDistinct, not, string_eq,
}
use logistics.Common.Dict
use logistics.Common.Images.{map-In, filter-In_iff, filter-IsDistinct, map-map}
use logistics.Findings.{FindingScope}
use logistics.Status.Vocabulary.{LegStatus, QuoteStatus}
use logistics.Changes.Store.{QuoteRow, QuoteRef, ChangeLogRow, Db}
use logistics.Changes.Scope.{ChangeRequest, ref_of, find_live_quotes}
use logistics.Changes.Fire.{done}
use logistics.Changes.Fire.Events.{Invalidates, QuoteIs, LegIs}
use logistics.Changes.Order.{
  ImpactDecision, live_refs, invalidating_of, refreshing_of, legs_with_live_quotes, log_row,
  reason_of, run_change_order, invalidated_by_change_order,
}
use logistics.Changes.Order.Partition.{
  live_refs-live, change_order_split, legs_with_live_quotes_iff,
}
use logistics.Changes.Order.Radius.{
  IsDoomed, IsPending, IsTouched, invalidating_iff, refreshing_iff, affected_iff, ids_iff,
}
use logistics.Changes.Order.Cascade.{KeepsQuotes, IsReopenable, IsRefreshed, apply-Cascaded}

In-invalidating :
    (quotes : List QuoteRef) (q : QuoteRef)
    → In q (invalidating_of quotes) ↔ (In q quotes × (invalidated_by_change_order q.status ≡ true))
unfolding invalidating_of
In-invalidating quotes q = filter-In_iff _ quotes q

In-refreshing :
    (quotes : List QuoteRef) (q : QuoteRef)
    → In q (refreshing_of quotes)
      ↔ (In q quotes × (not (invalidated_by_change_order q.status) ≡ true))
unfolding refreshing_of
In-refreshing quotes q = filter-In_iff _ quotes q

module _ {M : Type 0} where
  live_row :
      (scope : List FindingScope) (db : Db M) (q : QuoteRef)
      → IsDistinct (Dict.keys db.quotes)
      → In q (live_refs scope db)
      → (row : QuoteRow M) × (Dict.get q.quote_id db.quotes ≡ some row)
        × (row.status ≡ q.status)
        × (row.leg_id ≡ q.leg_id)
  live_row scope db q d m =
      let ((k, row), there, _, same, _) = live_refs-live scope db q m in
      (
        row,
        ap (λ (r : QuoteRef). Dict.get r.quote_id db.quotes) same
            ∙ Dict.get-In db.quotes k row d there,
        sym (ap (λ (r : QuoteRef). r.status) same),
        sym (ap (λ (r : QuoteRef). r.leg_id) same),
      )

  -- A quote that is refreshed does not share its id with one that is invalidated.
  refreshing-fresh :
      (scope : List FindingScope) (db : Db M) (q : QuoteRef)
      → IsDistinct (Dict.keys db.quotes)
      → In q (refreshing_of (live_refs scope db))
      → In q.quote_id (map (λ r. r.quote_id) (invalidating_of (live_refs scope db)))
      → ⊥
  unfolding refreshing_of invalidating_of
  refreshing-fresh scope db q d m out =
      let quotes = live_refs scope db in
      let (r, there, same) =
        (map-In (λ (r : QuoteRef). r.quote_id) (invalidating_of quotes) q.quote_id).0 out in
      let (qm, stays) = (filter-In_iff _ quotes q).0 m in
      let (rm, goes) = (filter-In_iff _ quotes r).0 there in
      let (a, fa, sa, _) = live_row scope db q d qm in
      let (b, fb, sb, _) = live_row scope db r d rm in
      let one : a ≡ b = ground (arith, fa, fb, same) in
      let status : q.status ≡ r.status = sym sa ∙ ap (λ (x : QuoteRow M). x.status) one ∙ sb in
      ground (arith, stays, goes, status)

  invalidating-IsDistinct :
      (scope : List FindingScope) (db : Db M)
      → IsDistinct (Dict.keys db.quotes)
      → IsDistinct (map (λ q. q.quote_id) (invalidating_of (live_refs scope db)))
  unfolding invalidating_of live_refs find_live_quotes Dict.keys
  invalidating-IsDistinct scope db d =
      filter-IsDistinct (λ (q : QuoteRef). q.quote_id) _ _
        (subst IsDistinct (sym (map-map (λ (q : QuoteRef). q.quote_id) ref_of _))
          (filter-IsDistinct (λ (e : String × QuoteRow M). e.0) _ db.quotes.entries d))

  -- The quotes that are invalidated have the edge to INVALID, before the edit and after it.
  invalidating-edges :
      (scope : List FindingScope) (uow : Db M → Db M) (db : Db M)
      → IsDistinct (Dict.keys db.quotes)
      → KeepsQuotes uow db
      → (id : String) → In id (map (λ q. q.quote_id) (invalidating_of (live_refs scope db)))
      → QuoteIs Invalidates id (uow db)
  invalidating-edges scope uow db d keeps id m =
      let quotes = live_refs scope db in
      let (q, there, same) =
        (map-In (λ (r : QuoteRef). r.quote_id) (invalidating_of quotes) id).0 m in
      let (qm, goes) = (In-invalidating quotes q).0 there in
      let (row, found, status, _) = live_row scope db q d qm in
      let (row', found', status', _) = keeps q.quote_id row found in
      elim (change_order_split scope db q qm) [
        | inl (_, _, edge) ↦ (
          row',
          ap (λ i. Dict.get i (uow db).quotes) same ∙ found',
          subst Invalidates (sym (status' ∙ status)) edge,
        )
        | inr (_, not_in, _) ↦ absurd (not_in there)
      ]

  -- The quotes that are refreshed are outstanding, on a leg that is reopened.
  refreshing-pending :
      (scope : List FindingScope) (uow : Db M → Db M) (db : Db M)
      → IsDistinct (Dict.keys db.quotes)
      → KeepsQuotes uow db
      → (id : String) → In id (map (λ q. q.quote_id) (refreshing_of (live_refs scope db)))
      → (row : QuoteRow M) × (Dict.get id (uow db).quotes ≡ some row)
        × (row.status ≡ QuoteStatus.rfq_sent)
        × In row.leg_id (legs_with_live_quotes (live_refs scope db))
        × (In id (map (λ q. q.quote_id) (invalidating_of (live_refs scope db))) → ⊥)
  refreshing-pending scope uow db d keeps id m =
      let quotes = live_refs scope db in
      let (q, there, same) =
        (map-In (λ (r : QuoteRef). r.quote_id) (refreshing_of quotes) id).0 m in
      let (qm, stays) = (In-refreshing quotes q).0 there in
      let (row, found, status, leg) = live_row scope db q d qm in
      let (row', found', status', leg') = keeps q.quote_id row found in
      elim (change_order_split scope db q qm) [
        | inl (_, not_in, _) ↦ absurd (not_in there)
        | inr (_, _, sent) ↦ (
          row',
          ap (λ i. Dict.get i (uow db).quotes) same ∙ found',
          status' ∙ status ∙ sent,
          ((legs_with_live_quotes_iff quotes).1 row'.leg_id).1 (q, qm, leg' ∙ leg),
          λ out. refreshing-fresh scope db q d there (
              subst (λ x. In x (map (λ (r : QuoteRef). r.quote_id) (invalidating_of quotes))) same
                out),
        )
      ]

  -- what a confirmed change order has done, from the rows as they were and as the edit left them
  pub record IsCarriedOut (req : ChangeRequest) (decision : ImpactDecision) (reason : String)
      (before edited after : Db M) : Type 0 where
    pub invalid :
        (e : String × QuoteRow M)
        → IsDoomed decision.scope before e
        → QuoteIs (λ s. s ≡ QuoteStatus.invalid) e.0 after
    pub refreshed :
        (e : String × QuoteRow M) → IsPending decision.scope before e → IsRefreshed edited after e.0
    pub ready :
        (e : String × QuoteRow M)
        → IsTouched decision.scope before e
        → LegIs (λ s. s ≡ LegStatus.ready_for_rfq) e.1.leg_id after
    pub entry : ChangeLogRow
    pub logged : after.change_log ≡ entry ∷ edited.change_log
    pub subject :
        (entry.query_id ≡ req.query_id)
        × (entry.entity ≡ req.entity)
        × (entry.entity_id ≡ req.id)
        × (entry.actor_id ≡ req.actor_id)
        × (entry.impact_class ≡ decision.impact_class)
        × (entry.reason ≡ reason)
    pub legs_logged :
        (l : String)
        → In l entry.affected_legs
          ↔ ((e : String × QuoteRow M) × IsTouched decision.scope before e × (l ≡ e.1.leg_id))
    pub invalid_logged :
        (id : String)
        → In id entry.invalidated_quotes
          ↔ ((e : String × QuoteRow M) × IsDoomed decision.scope before e × (id ≡ e.0))
    pub refreshed_logged :
        (id : String)
        → In id entry.refreshed_quotes
          ↔ ((e : String × QuoteRow M) × IsPending decision.scope before e × (id ≡ e.0))

  reopenable :
      (scope : List FindingScope) (uow : Db M → Db M) (db : Db M) (query_id : String)
      → ((e : String × QuoteRow M)
          → IsTouched scope db e
          → IsReopenable query_id (uow db) e.1.leg_id)
      → All (IsReopenable query_id (uow db)) (legs_with_live_quotes (live_refs scope db))
  reopenable scope uow db query_id legs = In-All _ _ (λ l m.
      let (e, touched, at) = (affected_iff scope db l).0 m in
      subst (IsReopenable query_id (uow db)) (sym at) (legs e touched))

  -- A change order that is confirmed with a reason runs to its end. Every quote on a leg of the scope that
  -- holds a price (QUOTED, PENDING_APPROVAL, APPROVED, or EXPIRED after it was submitted) is INVALID;
  -- every one that is RFQ_SENT is still so, and shows the edited leg with no draft left; every leg of
  -- either is READY_FOR_RFQ; and one record on the change log names exactly these legs and quotes. The
  -- conditions: the request names a query, quote ids are distinct, the edit keeps the quotes'
  -- statuses and legs, and it leaves the legs of these quotes in the query, at statuses that can be
  -- reopened.
  pub run_change_order-Cascaded :
      (req : ChangeRequest) (decision : ImpactDecision) (query_id reason : String)
      (uow : Db M → Db M) (db : Db M)
      → req.query_id ≡ some query_id
      → reason_of req.reason ≡ some reason
      → IsDistinct (Dict.keys db.quotes)
      → KeepsQuotes uow db
      → ((e : String × QuoteRow M)
          → IsTouched decision.scope db e
          → IsReopenable query_id (uow db) e.1.leg_id)
      → (db' : Db M) × ((run_change_order req decision uow db).0 ≡ done db')
        × IsCarriedOut req decision reason db (uow db) db'
  unfolding run_change_order
  run_change_order-Cascaded req decision query_id reason uow db of_query asked d keeps legs =
      let scope = decision.scope in
      let quotes = live_refs scope db in
      let out =
        ids_iff scope db (IsDoomed scope db) (invalidating_of quotes) (invalidating_iff scope db) in
      let again =
        ids_iff scope db (IsPending scope db) (refreshing_of quotes) (refreshing_iff scope db) in
      let (db', run, reached, logged) =
        apply-Cascaded req query_id decision.impact_class reason uow (legs_with_live_quotes quotes)
          (invalidating_of quotes) (refreshing_of quotes) db of_query
          (legs_with_live_quotes_iff quotes).0 (invalidating-IsDistinct scope db d)
          (reopenable scope uow db query_id legs)
          (In-All _ _ (invalidating-edges scope uow db d keeps))
          (In-All _ _ (refreshing-pending scope uow db d keeps)) in
      (
        db',
        rw (run_change_order, asked) run,
        record {
          invalid = λ e doomed. All-In _ _ reached.invalid ((out e.0).1 (e, doomed, refl));
          refreshed = λ e sent. All-In _ _ reached.refreshed ((again e.0).1 (e, sent, refl));
          ready = λ e touched.
              All-In _ _ reached.ready ((affected_iff scope db e.1.leg_id).1 (e, touched, refl));
          entry =
              log_row req decision.impact_class reason (legs_with_live_quotes quotes)
                (invalidating_of quotes) (refreshing_of quotes);
          logged = logged;
          subject = (refl, refl, refl, refl, refl, refl);
          legs_logged = affected_iff scope db;
          invalid_logged = out;
          refreshed_logged = again;
        },
      )
