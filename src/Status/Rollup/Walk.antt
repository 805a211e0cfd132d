-- ===== src/Status/Rollup/Walk.antt =====
-- How the projector moves a leg: forward on every quote event, backward only on a re-quote.
use logistics.Common.{
  ◌≤◌, ◌≡◌, refl, ◌≢◌, ◌↔◌, ◌⊎◌, Bool, true, false, Option, none, some, List, [], ◌∷◌, arith, In,
  All, any, filter, if◌then◌else◌, ◌==◌, Bool-cases, inl, inr, ◌∙◌, ap,
}
use logistics.Status.Vocabulary.{
  LegStatus, LegEvent, QuoteStatus, leg_rank, leg_status_eq, leg_event_eq, quote_status_eq,
}
use logistics.Status.Machine.{find_transition, next_state}
use logistics.Status.Machines.{leg_app}
use logistics.Status.Rollup.{is_distributed, rollup_leg_target, recompute_leg, target_of}
use logistics.Status.Rollup.Target.{IsQuiet, rollup_leg_target_iff}

-- the status after the event that was fired, if any; an illegal event changes nothing
abbrev pub apply_event : LegStatus → Option LegEvent → LegStatus
apply_event s none = s
apply_event s (some e) = elim (next_state leg_app s e) [ none ↦ s | some t ↦ t ]

-- RFQ_SENT, PARTIALLY_QUOTED or FULLY_QUOTED
abbrev pub IsQuoting : LegStatus → Type 0
IsQuoting s =
    (s ≡ LegStatus.rfq_sent) ⊎ (s ≡ LegStatus.partially_quoted) ⊎ (s ≡ LegStatus.fully_quoted)

-- Unless a quote has just entered REQUOTED, the projector never lowers a leg's rank.
pub recompute_leg-forward :
    (s : LegStatus) (qs : List QuoteStatus)
    → leg_rank s ≤ leg_rank (apply_event s (recompute_leg false s qs))
unfolding recompute_leg next_state find_transition
recompute_leg-forward s qs = ground arith

filter_idem :
    (qs : List QuoteStatus)
    → filter is_distributed (filter is_distributed qs) ≡ filter is_distributed qs
filter_idem [] = refl
filter_idem (q ∷ qs) = ground (arith, filter_idem qs)

pub filter_same :
    (qs : List QuoteStatus) → rollup_leg_target (filter is_distributed qs) ≡ rollup_leg_target qs
unfolding rollup_leg_target
filter_same qs = ap target_of (filter_idem qs)

requoted_sent : (qs : List QuoteStatus) → In QuoteStatus.requoted qs → filter is_distributed qs ≢ []
requoted_sent [] h = absurd h
requoted_sent (q ∷ qs) h = ground (arith, requoted_sent qs)

requoted_not-IsQuiet : (qs : List QuoteStatus) → In QuoteStatus.requoted qs → ¬ All IsQuiet qs
requoted_not-IsQuiet [] h = absurd h
requoted_not-IsQuiet (q ∷ qs) h = ground (arith, requoted_not-IsQuiet qs)

any_quoted_iff :
    (qs : List QuoteStatus)
    → (any (λ q. q == QuoteStatus.quoted) qs ≡ true) ↔ In QuoteStatus.quoted qs
any_quoted_iff [] = (λ h. cc, λ h. absurd h)
any_quoted_iff (q ∷ qs) = ground (arith, any_quoted_iff qs)

rollup_leg_target-requoted :
    (qs : List QuoteStatus)
    → In QuoteStatus.requoted qs
    → rollup_leg_target qs
      ≡ (if any (λ q. q == QuoteStatus.quoted) qs then some LegStatus.partially_quoted else none)
rollup_leg_target-requoted qs h = elim (Bool-cases (any (λ q. q == QuoteStatus.quoted) qs)) [
  | inl yes_quoted ↦
      rw yes_quoted (
        (rollup_leg_target_iff qs).1.1
          ((any_quoted_iff qs).0 yes_quoted, requoted_not-IsQuiet qs h))
  | inr none_quoted ↦ rw none_quoted (no_target (rollup_leg_target qs) refl none_quoted)
]
  where
    no_target :
        (o : Option LegStatus)
        → rollup_leg_target qs ≡ o
        → any (λ q. q == QuoteStatus.quoted) qs ≡ false
        → o ≡ none
    no_target none e n = refl
    no_target (some t) e n = elim ((rollup_leg_target_iff qs).2 t e) [
      | inl full ↦
          absurd (requoted_not-IsQuiet qs h ((rollup_leg_target_iff qs).0.0 (e ∙ ap some full)).1)
      | inr part ↦
          let quoted =
            (any_quoted_iff qs).1 ((rollup_leg_target_iff qs).1.0 (e ∙ ap some part)).0 in
          cc
    ]

-- A leg that is being quoted, one of whose quotes has just entered REQUOTED, is left PARTIALLY_QUOTED
-- if another quote is still QUOTED and RFQ_SENT if none is: the event that the projector fires is
-- legal and brings it there, from each of the three states.
pub recompute_leg-requoted :
    (s : LegStatus) (qs : List QuoteStatus)
    → IsQuoting s
    → In QuoteStatus.requoted qs
    → apply_event s (recompute_leg true s qs) ≡ (
        if any (λ q. q == QuoteStatus.quoted) qs
        then LegStatus.partially_quoted
        else LegStatus.rfq_sent)
unfolding recompute_leg next_state find_transition
recompute_leg-requoted s qs h r =
    ground (arith, rollup_leg_target-requoted qs r, requoted_sent qs r, filter_same qs)

-- What the projector does to a leg that is being quoted is settled: a second look at the same quotes
-- fires nothing.
pub recompute_leg_settles :
    (b : Bool) (s : LegStatus) (qs : List QuoteStatus)
    → IsQuoting s
    → recompute_leg false (apply_event s (recompute_leg b s qs)) qs ≡ none
unfolding recompute_leg next_state find_transition
recompute_leg_settles b s qs h = ground arith
