-- ===== src/Status/Query/Gate.antt =====
-- The least advanced leg gates the query, whatever the order of its legs.
use logistics.Common.{
  ℕ, ◌≤◌, ◌≡◌, refl, sym, subst, ◌↔◌, ◌⊎◌, inl, true, false, ◌||◌, none, List, [], ◌∷◌, arith, In,
  All, is_nil, All-In, In-All, filter, all, any, ◌==◌,
}
use logistics.Status.Vocabulary.{
  LegStatus, QuoteStatus, QueryStatus, leg_rank, leg_status_eq, quote_status_eq,
}
use logistics.Status.Rollup.{is_distributed}
use logistics.Status.Query.{
  QueryMilestones, lower, least_from, least_advanced, of_least, of_legs, derive_query_status,
  QueryView, milestones_of, no_response, recompute,
}

least_from-le :
    (m : LegStatus) (ss : List LegStatus)
    → (leg_rank (least_from m ss) ≤ leg_rank m)
      × All (λ s. leg_rank (least_from m ss) ≤ leg_rank s) ss
unfolding least_from
least_from-le m [] = (omega arith, tt)
least_from-le m (s ∷ ss) =
    let (a, b) = least_from-le (lower m s) ss in (ground (arith, a), (ground (arith, a), b))

least_from-In :
    (m : LegStatus) (ss : List LegStatus) → (least_from m ss ≡ m) ⊎ In (least_from m ss) ss
unfolding least_from
least_from-In m [] = inl refl
least_from-In m (s ∷ ss) = ground (arith, least_from-In (lower m s) ss)

least_advanced-In : (s : LegStatus) (ss : List LegStatus) → In (least_advanced s ss) (s ∷ ss)
unfolding least_advanced
least_advanced-In s ss = ground (arith, least_from-In s (s ∷ ss))

least_advanced-le :
    (s : LegStatus) (ss : List LegStatus)
    → All (λ t. leg_rank (least_advanced s ss) ≤ leg_rank t) (s ∷ ss)
unfolding least_advanced
least_advanced-le s ss = (least_from-le s (s ∷ ss)).1

-- how far every leg is when a query has this status
abbrev pub reached_rank : QueryStatus → ℕ
reached_rank QueryStatus.created = 1
reached_rank QueryStatus.rfq_ready = 1
reached_rank QueryStatus.rfq_sent = 2
reached_rank QueryStatus.quoted = 4
reached_rank QueryStatus.no_response = 4
reached_rank QueryStatus.closed = 9
reached_rank _ = 0

-- no milestone that outranks the legs
abbrev pub IsGated : QueryMilestones → Type 0
IsGated ms =
    (ms.closed ≡ false)
    × (ms.lost ≡ false)
    × (ms.won ≡ false)
    × (ms.awaiting_client_decision ≡ false)
    × (ms.quoting_client ≡ false)

of_least-le : (ms : QueryMilestones) (s : LegStatus) → reached_rank (of_least ms s) ≤ leg_rank s
of_least-le ms s = ground arith

-- Where no client milestone outranks the legs, a query has a status only once every one of its legs
-- has come that far: CREATED and RFQ_READY need every leg ready for RFQ, RFQ_SENT needs every leg
-- sent, QUOTED and NO_RESPONSE every leg fully quoted, and CLOSED every leg delivered.
pub derive_query_status_gate :
    (legs : List LegStatus) (ms : QueryMilestones)
    → IsGated ms
    → All (λ s. reached_rank (derive_query_status legs ms) ≤ leg_rank s) legs
unfolding derive_query_status
derive_query_status_gate [] ms g = tt
derive_query_status_gate (s ∷ ss) ms g =
    let least = least_advanced s ss in
    let status : derive_query_status (s ∷ ss) ms ≡ of_least ms least = ground arith in
    In-All (λ t. reached_rank (derive_query_status (s ∷ ss) ms) ≤ leg_rank t) (s ∷ ss)
      (λ t member.
        subst (λ q. reached_rank q ≤ leg_rank t) (sym status)
          (omega (
            arith,
            of_least-le ms least,
            All-In (λ u. leg_rank least ≤ leg_rank u) (s ∷ ss) (least_advanced-le s ss) member,
          )))

leg_rank-injective : (s t : LegStatus) → leg_rank s ≡ leg_rank t → s ≡ t
leg_rank-injective s t h = ground arith

-- The status of a query does not depend on the order, or the repetition, of its legs' statuses.
pub derive_query_status-members :
    (legs legs' : List LegStatus) (ms : QueryMilestones)
    → ((s : LegStatus) → In s legs → In s legs')
    → ((s : LegStatus) → In s legs' → In s legs)
    → derive_query_status legs ms ≡ derive_query_status legs' ms
unfolding derive_query_status
derive_query_status-members [] [] ms to from = refl
derive_query_status-members [] (t ∷ ts) ms to from = absurd (from t (inl refl))
derive_query_status-members (s ∷ ss) [] ms to from = absurd (to s (inl refl))
derive_query_status-members (s ∷ ss) (t ∷ ts) ms to from =
    let a = least_advanced s ss in
    let b = least_advanced t ts in
    let same : a ≡ b = leg_rank-injective a b (
      omega (
        arith,
        All-In (λ u. leg_rank a ≤ leg_rank u) (s ∷ ss) (least_advanced-le s ss)
            (from b (least_advanced-In t ts)),
        All-In (λ u. leg_rank b ≤ leg_rank u) (t ∷ ts) (least_advanced-le t ts)
            (to a (least_advanced-In s ss)),
      )) in
    rw same

-- A quote that was never sent, or that ended without an answer.
abbrev pub IsSilent : QuoteStatus → Type 0
IsSilent q = (q ≡ QuoteStatus.select) ⊎ (q ≡ QuoteStatus.expired) ⊎ (q ≡ QuoteStatus.invalid)

sent_iff :
    (qs : List QuoteStatus)
    → (is_nil (filter is_distributed qs) ≡ false) ↔ (¬ All (λ q. q ≡ QuoteStatus.select) qs)
sent_iff [] = (λ h. cc, λ h. absurd (h tt))
sent_iff (q ∷ qs) = ground (arith, sent_iff qs)

all-IsSilent_iff :
    (qs : List QuoteStatus)
    → (all (λ q. q == QuoteStatus.expired || q == QuoteStatus.invalid) (filter is_distributed qs)
        ≡ true)
      ↔ All IsSilent qs
all-IsSilent_iff [] = (λ _. tt, λ _. refl)
all-IsSilent_iff (q ∷ qs) = ground (arith, all-IsSilent_iff qs)

silent-not_quoted :
    (qs : List QuoteStatus)
    → all (λ q. q == QuoteStatus.expired || q == QuoteStatus.invalid) qs ≡ true
    → any (λ q. q == QuoteStatus.quoted) qs ≡ false
silent-not_quoted [] h = refl
silent-not_quoted (q ∷ qs) h = ground (arith, silent-not_quoted qs)

no_response_iff :
    (qs : List QuoteStatus)
    → (no_response qs ≡ true) ↔ ((¬ All (λ q. q ≡ QuoteStatus.select) qs) × All IsSilent qs)
unfolding no_response
no_response_iff qs =
    let ds = filter is_distributed qs in
    (
      λ h. ((sent_iff qs).0 (ground arith), (all-IsSilent_iff qs).0 (ground arith)),
      λ h. ground (
        arith,
        (sent_iff qs).1 h.0,
        (all-IsSilent_iff qs).1 h.1,
        silent-not_quoted ds ((all-IsSilent_iff qs).1 h.1),
      ),
    )

of_legs-no_response :
    (legs : List LegStatus) (ms : QueryMilestones)
    → (of_legs legs ms ≡ QueryStatus.no_response)
      ↔ ((ms.no_response ≡ true) × In LegStatus.fully_quoted legs × All (λ s. 4 ≤ leg_rank s) legs)
of_legs-no_response [] ms = ground arith
of_legs-no_response (s ∷ ss) ms = (
  λ h.
      let least : least_advanced s ss ≡ LegStatus.fully_quoted = ground arith in
      (
        ground arith,
        subst (λ t. In t (s ∷ ss)) least (least_advanced-In s ss),
        subst (λ t. All (λ u. leg_rank t ≤ leg_rank u) (s ∷ ss)) least (least_advanced-le s ss),
      ),
  λ h.
      let low =
        All-In (λ u. leg_rank (least_advanced s ss) ≤ leg_rank u) (s ∷ ss) (least_advanced-le s ss)
          h.1 in
      let high = All-In (λ u. 4 ≤ leg_rank u) (s ∷ ss) h.2 (least_advanced-In s ss) in
      let least : least_advanced s ss ≡ LegStatus.fully_quoted =
        leg_rank-injective _ _ (omega (arith, low, high)) in
      rw least (ground arith),
)

-- The projector reports NO_RESPONSE exactly if no award is frozen and no quotation issued, every leg
-- is at least fully quoted and one is just that, some quote was sent, and every quote that was sent
-- has expired or is invalid.
pub recompute-no_response :
    (q : QueryView)
    → (recompute q ≡ QueryStatus.no_response) ↔ (
        (q.award_snapshot ≡ none)
        × (q.issued ≡ 0)
        × In LegStatus.fully_quoted q.leg_statuses
        × All (λ s. 4 ≤ leg_rank s) q.leg_statuses
        × (¬ All (λ s. s ≡ QuoteStatus.select) q.quote_statuses)
        × All IsSilent q.quote_statuses)
unfolding recompute derive_query_status
recompute-no_response q =
    let ms = milestones_of q in
    let legs = of_legs-no_response q.leg_statuses ms in
    let quotes = no_response_iff q.quote_statuses in
    (
      λ h.
          let open_query : (q.award_snapshot ≡ none)
              × (q.issued ≡ 0)
              × (of_legs q.leg_statuses ms ≡ QueryStatus.no_response) =
            (ground arith, ground arith, ground arith) in
          let x = legs.0 open_query.2 in
          let y = quotes.0 x.0 in (open_query.0, open_query.1, x.1, x.2, y.0, y.1),
      λ h. let fell = legs.1 (quotes.1 (h.4, h.5), h.2, h.3) in ground (arith, fell),
    )
