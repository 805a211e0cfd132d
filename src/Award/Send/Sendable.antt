-- ===== src/Award/Send/Sendable.antt =====
-- What a committed send rests on, stated of the rows and not of the code's tests.
use logistics.Common.{
  ℕ, ◌≤◌, ◌≡◌, refl, sym, subst, ap, ◌∙◌, ◌≢◌, ◌⊎◌, inl, inr, Bool, true, false, ◌&&◌, ◌||◌, not,
  Option, none, some, List, [], ◌∷◌, String, arith, All, IsDistinct, find?, find?_sound, filter,
  all, is_nil, Bool-cases, Option-cases, ◌==◌, string_eq, eq_iff,
}
use logistics.Common.Dict
use logistics.Common.Images.{map-In, filter-In_iff}
use logistics.Status.Vocabulary.{LegStatus, QuoteStatus, quote_status_eq, leg_status_eq}
use logistics.Changes.Store.{LegRow, QuoteRow}
use logistics.Changes.Fire.{Run}
use logistics.Award.{LegAwardDecision, pending_approval, approved, AwardDb, passed, lock_row}
use logistics.Award.Send.{
  SendForApprovalInput, Recommendation, ComparisonLeg, is_sendable, is_past_draft,
  in_flight_requotes, proceed_override, may_send, matches_recommendation, is_text, LegQuote,
  leg_quotes, sent, send_for_approval, is_closed, same_text,
}
use logistics.Award.Send.Guards.{Passed, send_for_approval-Passed, sent_decision}
use logistics.Award.Send.{still_waited_on}

-- a quote that an answer may still come from
abbrev pub IsOutstanding : QuoteStatus → Type 0
IsOutstanding s =
    (s ≡ QuoteStatus.rfq_sent) ⊎ (s ≡ QuoteStatus.requoted) ⊎ (s ≡ QuoteStatus.invalid)

-- the offer that the decision names is the recommended one
abbrev pub IsRecommended : LegAwardDecision → Type 0
IsRecommended d =
    (d.shortlisted_quote_id ≡ d.recommended_quote_id)
    × (d.shortlisted_variant ≡ d.recommended_variant)

same_text_iff : (a b : Option String) → same_text a b ≡ true → a ≡ b
same_text_iff none none h = refl
same_text_iff none (some b) h = absurd (ground arith)
same_text_iff (some a) none h = absurd (ground arith)
same_text_iff (some a) (some b) h = ap some ((eq_iff a b).0 h)

explained_cases :
    (d : LegAwardDecision)
    → (not (matches_recommendation d) && not (is_text d.override_reason)) ≡ false
    → IsRecommended d ⊎ (d.override_reason ≢ none)
explained_cases d h = elim (Bool-cases (matches_recommendation d)) [
  | inl m ↦ inl (
    same_text_iff d.shortlisted_quote_id d.recommended_quote_id (ground (arith, m)),
    same_text_iff d.shortlisted_variant d.recommended_variant (ground (arith, m)),
  )
  | inr m ↦ inr (λ n. ground (arith, m, n))
]

past_draft_cases :
    (o : Option LegAwardDecision)
    → is_past_draft o ≡ false
    → (e : LegAwardDecision) → o ≡ some e
    → (e.status ≢ pending_approval) × (e.status ≢ approved)
past_draft_cases none h e same = absurd (ground arith)
past_draft_cases (some d) h e same = ground arith

no_requotes :
    (quotes : List LegQuote)
    → is_nil (in_flight_requotes quotes) ≡ true
    → All (λ q. q.1 ≢ QuoteStatus.requoted) quotes
no_requotes [] h = tt
no_requotes (q ∷ quotes) h = ground (arith, no_requotes quotes)

waived_cases :
    (input : SendForApprovalInput) (quotes : List LegQuote)
    → (not (is_nil (in_flight_requotes quotes)) && not (proceed_override input quotes)) ≡ false
    → All (λ q. q.1 ≢ QuoteStatus.requoted) quotes
      ⊎ ((input.proceed_without_waiting ≡ true) × (input.proceed_reason ≢ none))
waived_cases input quotes h = elim (Bool-cases (is_nil (in_flight_requotes quotes))) [
  | inl none_there ↦ inl (no_requotes quotes none_there)
  | inr some_there ↦ inr (ground (arith, some_there), λ n. ground (arith, some_there, n))
]

module _ (now : ℕ) (deadline : String → Option ℕ) where
  -- the RFQ of the quote has closed
  abbrev pub HasClosed : String → Type 0
  HasClosed id = (t : ℕ) × (deadline id ≡ some t) × (t ≤ now)

  HasClosed-is_closed : (id : String) → is_closed now (deadline id) ≡ true → HasClosed id
  HasClosed-is_closed id h = elim (Option-cases (deadline id)) [
    | inl n ↦ absurd (ground (arith, n))
    | inr (t, e) ↦ (t, e, ground (arith, e))
  ]

  -- what is waited for has closed, but for re-quotes that the send proceeds past
  abbrev pub IsAnswered : Bool → LegQuote → Type 0
  IsAnswered override q =
      IsOutstanding q.1 → HasClosed q.0 ⊎ ((q.1 ≡ QuoteStatus.requoted) × (override ≡ true))

  all_closed :
      (override : Bool) (quotes : List LegQuote)
      → all (λ q. is_closed now (deadline q.0)) (still_waited_on override quotes) ≡ true
      → All (IsAnswered override) quotes
  all_closed override [] h = tt
  all_closed true (q ∷ quotes) h = (
    λ o. elim (Bool-cases (q.1 == QuoteStatus.requoted)) [
      | inl r ↦ inr (ground (arith, r), refl)
      | inr r ↦ inl (HasClosed-is_closed q.0 (ground (arith, r, o)))
    ],
    all_closed true quotes (ground arith),
  )
  all_closed false (q ∷ quotes) h = (
    λ o. inl (HasClosed-is_closed q.0 (ground (arith, o))),
    all_closed false quotes (ground arith),
  )

  may_send_cases :
      (status : LegStatus) (override : Bool) (quotes : List LegQuote)
      → may_send now deadline status override quotes ≡ true
      → (status ≡ LegStatus.fully_quoted)
        ⊎ (all (λ q. is_closed now (deadline q.0)) (still_waited_on override quotes) ≡ true)
  may_send_cases status override quotes h = elim (Bool-cases (status == LegStatus.fully_quoted)) [
    | inl full ↦ inl (ground (arith, full))
    | inr short ↦ inr (nothing_open (still_waited_on override quotes) (ground (arith, short)))
  ]
    where
      nothing_open :
          (waited : List LegQuote)
          → ((not (is_nil waited) && all (λ q. is_closed now (deadline q.0)) waited)
              || (override && is_nil waited))
            ≡ true
          → all (λ q. is_closed now (deadline q.0)) waited ≡ true
      nothing_open [] g = refl
      nothing_open (q ∷ waited) g = ground arith

module _ {M : Type 0} where
  -- the quote that is named, among those of the leg
  pub named_row :
      (leg_id id : String) (db : AwardDb M)
      → IsDistinct (Dict.keys db.rows.quotes)
      → is_sendable (find? (λ q. q.0 == id) (leg_quotes leg_id db)) ≡ true
      → (row : QuoteRow M) × (Dict.get id db.rows.quotes ≡ some row)
        × (row.leg_id ≡ leg_id)
        × ((row.status ≡ QuoteStatus.quoted) ⊎ (row.status ≡ QuoteStatus.expired))
  named_row leg_id id db distinct h =
      let mine = λ (e : String × QuoteRow M).
        e.1.leg_id == leg_id && not (e.1.status == QuoteStatus.select) in
      let es = db.rows.quotes.entries in
      elim (Option-cases (find? (λ q. q.0 == id) (leg_quotes leg_id db))) [
        | inl n ↦ absurd (ground (arith, n))
        | inr (q, found) ↦
            let (at, member) = find?_sound (λ q. q.0 == id) (leg_quotes leg_id db) found in
            let ((k, row), there, same) =
              (map-In (λ e. (e.0, e.1.status)) (filter mine es) q).0 member in
            let (inside, kept) = (filter-In_iff mine es (k, row)).0 there in
            let key : k ≡ id = sym (ap (λ x. x.0) same) ∙ (eq_iff q.0 id).0 at in
            let status : q.1 ≡ row.status = ap (λ x. x.1) same in
            let ok : is_sendable (some q) ≡ true = subst (λ o. is_sendable o ≡ true) found h in
            (
              row,
              subst (λ x. Dict.get x db.rows.quotes ≡ some row) key
                  (Dict.get-In db.rows.quotes k row distinct inside),
              ground (arith, eq_iff row.leg_id leg_id, kept),
              ground (arith, ok),
            )
      ]

  -- what a committed send rests on
  pub record Sendable (now : ℕ) (deadline : String → Option ℕ) (query_id leg_id : String)
      (input : SendForApprovalInput) (db : AwardDb M) (d : LegAwardDecision) : Type 0 where
    pub leg : LegRow M
    pub found : Dict.get leg_id db.rows.legs ≡ some leg
    pub unlocked : Dict.get query_id db.snapshots ≡ none
    pub quote : QuoteRow M
    pub offered : Dict.get input.quote_id db.rows.quotes ≡ some quote
    pub on_leg : quote.leg_id ≡ leg_id
    pub live : (quote.status ≡ QuoteStatus.quoted) ⊎ (quote.status ≡ QuoteStatus.expired)
    pub fresh :
        (e : LegAwardDecision)
        → Dict.get leg_id db.decisions ≡ some e
        → (e.status ≢ pending_approval) × (e.status ≢ approved)
    pub requotes :
        All (λ q. q.1 ≢ QuoteStatus.requoted) (leg_quotes leg_id db)
        ⊎ ((input.proceed_without_waiting ≡ true) × (input.proceed_reason ≢ none))
    pub answered :
        (leg.status ≡ LegStatus.fully_quoted)
        ⊎ All
            (IsAnswered now deadline (proceed_override input (leg_quotes leg_id db)))
            (leg_quotes leg_id db)
    pub explained : IsRecommended d ⊎ (d.override_reason ≢ none)

  pub lock_row-passed :
      (query_id leg_id : String) (db : AwardDb M) (row : LegRow M)
      → lock_row query_id leg_id db ≡ passed row
      → Dict.get leg_id db.rows.legs ≡ some row
  lock_row-passed query_id leg_id db row h = elim (Option-cases (Dict.get leg_id db.rows.legs)) [
    | inl n ↦ absurd (ground (arith, n))
    | inr (r, found) ↦ ground (arith, found)
  ]

  pub Passed-Sendable :
      {now : ℕ} {deadline : String → Option ℕ} {query_id leg_id : String}
      {input : SendForApprovalInput} {user : String} {db : AwardDb M} {d : LegAwardDecision}
      {run : Run (AwardDb M)}
      → IsDistinct (Dict.keys db.rows.quotes)
      → Passed now deadline query_id leg_id input user db d run
      → Sendable now deadline query_id leg_id input db d
  Passed-Sendable {now} {deadline} {query_id} {leg_id} {input} {user} {db} {d} {run} distinct p =
      let quotes = leg_quotes leg_id db in
      let (q, named, on_leg, live) = named_row leg_id input.quote_id db distinct p.sendable in
      record {
        leg = p.row;
        found = lock_row-passed query_id leg_id db p.row p.locked_row;
        unlocked = ground (arith, p.unlocked);
        quote = q;
        offered = named;
        on_leg = on_leg;
        live = live;
        fresh = past_draft_cases (Dict.get leg_id db.decisions) p.fresh;
        requotes = waived_cases input quotes p.waived;
        answered =
            elim (may_send_cases now deadline p.row.status (proceed_override input quotes) quotes
              p.allowed) [
                | inl full ↦ inl full
                | inr closed ↦
                    inr (all_closed now deadline (proceed_override input quotes) quotes closed)
              ];
        explained = explained_cases d (rw p.decision p.explained);
      }

  -- Where quote ids are unique, a send is committed only if the query is not locked, the named quote
  -- is on the leg and is QUOTED or EXPIRED, the leg's decision is not already under review or
  -- approved, no quote of the leg is being re-quoted unless the request proceeds past it with a reason,
  -- the leg is fully quoted or each of its quotes that may still be answered has a closed RFQ or is such
  -- a re-quote, and the offer is the recommended one or a reason is given. The decision is then under
  -- review, names the offer, and was sent by the user.
  pub send_for_approval-Sendable :
      (now : ℕ) (deadline : String → Option ℕ) (comparison : List ComparisonLeg)
      (query_id leg_id : String) (input : SendForApprovalInput) (user : String) (db : AwardDb M)
      (d : LegAwardDecision) (run : Run (AwardDb M))
      → IsDistinct (Dict.keys db.rows.quotes)
      → send_for_approval now deadline comparison query_id leg_id input user db ≡ sent d run
      → Sendable now deadline query_id leg_id input db d
        × (d.status ≡ pending_approval)
        × (d.shortlisted_quote_id ≡ some input.quote_id)
        × (d.sent_by_user_id ≡ some user)
  send_for_approval-Sendable now deadline comparison query_id leg_id input user db d run distinct
        h =
      let p =
        send_for_approval-Passed now deadline comparison query_id leg_id input user db d run h in
      (
        Passed-Sendable distinct p,
        rw p.decision refl,
        rw p.decision (names (Dict.get leg_id db.decisions) p.rec),
        rw p.decision refl,
      )
    where
      names :
          (o : Option LegAwardDecision) (rec : Option Recommendation)
          → (sent_decision user input rec o).shortlisted_quote_id ≡ some input.quote_id
      names none rec = refl
      names (some e) rec = refl
