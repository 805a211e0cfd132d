-- ===== src/Award/Reversal/Requote.antt =====
-- After a re-quote has been asked for, the leg waits for it, and so does every send for approval.
use logistics.Common.{
  ℕ, ◌≡◌, refl, sym, subst, ap, ◌∙◌, ◌≢◌, ◌⊎◌, inl, inr, false, Option, none, some, List, [], ◌∷◌,
  String, arith, In, Option-cases, ◌==◌, string_eq, eq_iff, filter, is_nil, ◌&&◌, not,
}
use logistics.Common.Dict
use logistics.Common.Images.{In-map, filter-In_iff}
use logistics.Status.Vocabulary.{
  LegStatus, QuoteStatus, QuoteEvent, leg_status_eq, leg_event_eq, quote_status_eq, quote_event_eq,
}
use logistics.Status.Rollup.Walk.{IsQuoting}
use logistics.Changes.Store.{LegRow, QuoteRow, Db}
use logistics.Changes.Fire.{Run, done, ◌>>=◌, fire_quote, quotes_of_leg}
use logistics.Changes.Fire.Events.{QuoteIs, LegIs}
use logistics.Award.{LegAwardDecision, draft, AwardDb}
use logistics.Award.Send.{
  SendForApprovalInput, ComparisonLeg, leg_quotes, in_flight_requotes, proceed_override, sent,
  send_for_approval, LegQuote,
}
use logistics.Award.Send.Guards.{send_for_approval-Passed}
use logistics.Award.Reversal.{
  ask, own_quote, in_the_way, leg_approved, requote_transaction, reset_decision, reset, asked,
  reopen_award, request_requote,
}
use logistics.Award.Reversal.{and_then}
use logistics.Award.Reversal.Waits.{lookup-In_entries, requote_run, requote_edges, waiting_status}

-- a list with a re-quote in flight does not let a send pass that waits
is_nil-requotes : (q : LegQuote) (quotes : List LegQuote) → In q quotes → is_nil quotes ≡ false
is_nil-requotes q [] m = absurd m
is_nil-requotes q (x ∷ quotes) m = refl

waits :
    (input : SendForApprovalInput) (quotes : List LegQuote) (q : LegQuote)
    → input.proceed_without_waiting ≡ false
    → In q (in_flight_requotes quotes)
    → (not (is_nil (in_flight_requotes quotes)) && not (proceed_override input quotes)) ≡ false
    → ⊥
waits input quotes q patient m h = ground (arith, is_nil-requotes q (in_flight_requotes quotes) m)

module _ {M : Type 0} where
  own_quote-some :
      (query_id leg_id : String) (o : Option (QuoteRow M)) (q : QuoteRow M)
      → own_quote query_id leg_id o ≡ some q
      → (o ≡ some q) × (q.leg_id ≡ leg_id)
  own_quote-some query_id leg_id none q h = absurd (ground arith)
  own_quote-some query_id leg_id (some r) q h =
      let same : r ≡ q = ground arith in
      (
        ap some same,
        subst (λ (x : QuoteRow M). x.leg_id ≡ leg_id) same (ground (arith, eq_iff r.leg_id leg_id)),
      )

  -- A re-quote that is asked for is of a quote of the leg that can be re-quoted.
  request_requote-asked :
      (query_id leg_id quote_id comment user : String) (db : AwardDb M) (run : Run (AwardDb M))
      → request_requote query_id leg_id quote_id comment user db ≡ asked run
      → (q : QuoteRow M) × (Dict.get quote_id db.rows.quotes ≡ some q)
        × (q.leg_id ≡ leg_id)
        × ((q.status ≡ QuoteStatus.quoted)
            ⊎ (q.status ≡ QuoteStatus.approved)
            ⊎ (q.status ≡ QuoteStatus.expired))
        × (run
            ≡ ask query_id leg_id quote_id comment user
                (leg_approved (Dict.get leg_id db.rows.legs))
                db)
  unfolding request_requote
  request_requote-asked query_id leg_id quote_id comment user db run h =
      elim (Option-cases (own_quote query_id leg_id (Dict.get quote_id db.rows.quotes))) [
        | inl n ↦ absurd (ground (arith, n))
        | inr (q, e) ↦
            let (found, on) =
              own_quote-some query_id leg_id (Dict.get quote_id db.rows.quotes) q e in
            elim (Option-cases (in_the_way (Dict.get leg_id db.decisions))) [
              | inr (f, e') ↦ absurd (ground (arith, e, e'))
              | inl n ↦ (q, found, on, ground (arith, e, n), ground (arith, e, n))
            ]
      ]

  reset_decision-get :
      (leg_id : String) (db : AwardDb M) (d : LegAwardDecision)
      → Dict.get leg_id (reset_decision leg_id db).decisions ≡ some d
      → (d.status ≡ draft) × (d.shortlisted_quote_id ≡ none)
  reset_decision-get leg_id db d h = elim (Option-cases (Dict.get leg_id db.decisions)) [
    | inl n ↦ absurd (ground (arith, n))
    | inr (e, found) ↦
        let same : reset e ≡ d =
          ground (arith, found, Dict.get-set_same leg_id (reset e) db.decisions) in
        (ground (arith, same), ground (arith, same))
  ]

  transaction-same :
      (query_id leg_id quote_id comment user : String) (db : AwardDb M)
      → let after = requote_transaction query_id leg_id quote_id comment user db in
        (after.rows ≡ db.rows) × (after.decisions ≡ (reset_decision leg_id db).decisions)
  transaction-same query_id leg_id quote_id comment user db = (ground arith, ground arith)

  requote_listed :
      (leg_id quote_id : String) (db : AwardDb M) (q : QuoteRow M)
      → Dict.get quote_id db.rows.quotes ≡ some q
      → q.leg_id ≡ leg_id
      → q.status ≡ QuoteStatus.requoted
      → In (quote_id, QuoteStatus.requoted) (in_flight_requotes (leg_quotes leg_id db))
  requote_listed leg_id quote_id db q found on at =
      let es = db.rows.quotes.entries in
      let mine = λ (e : String × QuoteRow M).
        e.1.leg_id == leg_id && not (e.1.status == QuoteStatus.select) in
      let kept =
        (filter-In_iff mine es (quote_id, q)).1
          (lookup-In_entries es quote_id q found, ground (arith, on, at, eq_iff q.leg_id leg_id)) in
      let listed : In (quote_id, QuoteStatus.requoted) (leg_quotes leg_id db) =
        subst (λ s. In (quote_id, s) (leg_quotes leg_id db)) at
          (In-map (λ (e : String × QuoteRow M). (e.0, e.1.status)) (filter mine es) (quote_id, q)
            kept) in
      (filter-In_iff (λ (x : LegQuote). x.1 == QuoteStatus.requoted) (leg_quotes leg_id db) _).1
        (listed, refl)

  ask-done :
      (query_id leg_id quote_id comment user : String) (db : AwardDb M) (row : LegRow M)
      (rows : Db M)
      → Dict.get leg_id db.rows.legs ≡ some row
      → (fire_quote quote_id QuoteEvent.request_requote db.rows
          >>= reopen_award (row.status == LegStatus.approved) leg_id)
        ≡ done rows
      → ask query_id leg_id quote_id comment user (leg_approved (Dict.get leg_id db.rows.legs)) db
        ≡ done
            (requote_transaction query_id leg_id quote_id comment user (record db { rows = rows }))
  ask-done query_id leg_id quote_id comment user db row rows found events = rw found (
      ap
        (λ r.
          and_then r
            (λ rows.
              requote_transaction query_id leg_id quote_id comment user (record db { rows = rows }))
            db)
        events)

  -- A leg that is being quoted or approved, of which a re-quote has been asked: all events succeed, the
  -- quote is REQUOTED, and the leg is PARTIALLY_QUOTED if another of its quotes is QUOTED and RFQ_SENT
  -- if none is. The leg's decision, if there is one, is a draft with nothing shortlisted. On the
  -- rows that this leaves, no request to send an offer of the leg for approval is committed, whoever
  -- makes it, unless it proceeds without waiting.
  pub request_requote_waits :
      (query_id leg_id quote_id comment user : String) (db : AwardDb M) (run : Run (AwardDb M))
      (row : LegRow M)
      → Dict.get leg_id db.rows.legs ≡ some row
      → IsQuoting row.status ⊎ (row.status ≡ LegStatus.approved)
      → request_requote query_id leg_id quote_id comment user db ≡ asked run
      → (after : AwardDb M) × (run ≡ done after)
        × QuoteIs (λ s. s ≡ QuoteStatus.requoted) quote_id after.rows
        × LegIs (λ s. s ≡ waiting_status (quotes_of_leg leg_id after.rows)) leg_id after.rows
        × ((d : LegAwardDecision)
            → Dict.get leg_id after.decisions ≡ some d
            → (d.status ≡ draft) × (d.shortlisted_quote_id ≡ none))
        × ((now : ℕ) (deadline : String → Option ℕ) (comparison : List ComparisonLeg)
              (input : SendForApprovalInput) (sender : String) (d : LegAwardDecision)
              (run' : Run (AwardDb M))
            → input.proceed_without_waiting ≡ false
            → send_for_approval now deadline comparison query_id leg_id input sender after
              ≢ sent d run')
  request_requote_waits query_id leg_id quote_id comment user db run row found at h =
      let (q, named, on, live, ran) =
        request_requote-asked query_id leg_id quote_id comment user db run h in
      let (rows, events, quotes, leg) =
        requote_run leg_id quote_id db.rows row q found at named on (requote_edges q.status live) in
      let q' = record q { status = QuoteStatus.requoted } in
      let requoted : Dict.get quote_id rows.quotes ≡ some q' =
        ap (Dict.get quote_id) quotes ∙ Dict.get-set_same quote_id q' db.rows.quotes in
      let moved = record db { rows = rows } in
      let after = requote_transaction query_id leg_id quote_id comment user moved in
      let (same, decisions) = transaction-same query_id leg_id quote_id comment user moved in
      let requoted' : Dict.get quote_id after.rows.quotes ≡ some q' =
        ap (λ (x : Db M). Dict.get quote_id x.quotes) same ∙ requoted in
      let waiting = requote_listed leg_id quote_id after q' requoted' on refl in
      (
        after,
        ran ∙ ask-done query_id leg_id quote_id comment user db row rows found events,
        (q', requoted', refl),
        subst (λ (x : Db M). LegIs (λ s. s ≡ waiting_status (quotes_of_leg leg_id x)) leg_id x)
            (sym same) leg,
        λ d e. reset_decision-get leg_id moved d (ap (Dict.get leg_id) (sym decisions) ∙ e),
        λ now deadline comparison input sender d run' patient sends.
            let p =
              send_for_approval-Passed now deadline comparison query_id leg_id input sender after d
                run' sends in
            waits input (leg_quotes leg_id after) _ patient waiting p.waived,
      )
