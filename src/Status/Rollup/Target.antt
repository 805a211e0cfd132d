-- ===== src/Status/Rollup/Target.antt =====
-- What `rollupLegTarget` answers, stated of the quotes and not of the code's tests.
use logistics.Common.{
  ◌≡◌, refl, ◌≢◌, ◌↔◌, ◌⊎◌, true, some, List, [], ◌∷◌, arith, All, In, filter, all, any, includes,
  ◌==◌,
}
use logistics.Status.Vocabulary.{LegStatus, QuoteStatus, quote_status_eq}
use logistics.Status.Rollup.{leg_rollup_resolved, is_distributed, target_of, rollup_leg_target}

-- A quote that is settled, or was never sent.
abbrev pub IsQuiet : QuoteStatus → Type 0
IsQuiet q = (q ≢ QuoteStatus.rfq_sent) × (q ≢ QuoteStatus.invalid) × (q ≢ QuoteStatus.requoted)

all-filter_iff :
    (qs : List QuoteStatus)
    → (all (includes leg_rollup_resolved) (filter is_distributed qs) ≡ true) ↔ All IsQuiet qs
all-filter_iff [] = (λ _. tt, λ _. refl)
all-filter_iff (q ∷ qs) = ground (arith, all-filter_iff qs)

any-filter_iff :
    (qs : List QuoteStatus)
    → (any (λ s. s == QuoteStatus.quoted) (filter is_distributed qs) ≡ true)
      ↔ In QuoteStatus.quoted qs
any-filter_iff [] = (λ h. cc, λ h. absurd h)
any-filter_iff (q ∷ qs) = ground (arith, any-filter_iff qs)

filter-eq-nil_iff :
    (qs : List QuoteStatus) → (filter is_distributed qs ≡ []) ↔ All (λ q. q ≡ QuoteStatus.select) qs
filter-eq-nil_iff [] = (λ _. tt, λ _. refl)
filter-eq-nil_iff (q ∷ qs) = ground (arith, filter-eq-nil_iff qs)

target_of_fully_iff :
    (ds : List QuoteStatus)
    → (target_of ds ≡ some LegStatus.fully_quoted)
      ↔ ((ds ≢ []) × (all (includes leg_rollup_resolved) ds ≡ true))
target_of_fully_iff [] = ground arith
target_of_fully_iff (q ∷ qs) = ground arith

target_of_partially_iff :
    (ds : List QuoteStatus)
    → (target_of ds ≡ some LegStatus.partially_quoted) ↔ (
        (any (λ s. s == QuoteStatus.quoted) ds ≡ true)
        × (all (includes leg_rollup_resolved) ds ≢ true))
target_of_partially_iff [] = ground arith
target_of_partially_iff (q ∷ qs) = ground arith

target_of_cases :
    (ds : List QuoteStatus) (t : LegStatus)
    → target_of ds ≡ some t
    → (t ≡ LegStatus.fully_quoted) ⊎ (t ≡ LegStatus.partially_quoted)
target_of_cases [] t h = ground arith
target_of_cases (q ∷ qs) t h = ground arith

-- The target is FULLY_QUOTED exactly if some quote was sent and none that was sent is still
-- outstanding, invalid or being re-quoted; it is PARTIALLY_QUOTED exactly if a quote is QUOTED and
-- some quote is outstanding, invalid or being re-quoted. In all other cases there is no target.
pub rollup_leg_target_iff :
    (qs : List QuoteStatus)
    → ((rollup_leg_target qs ≡ some LegStatus.fully_quoted)
        ↔ ((¬ All (λ q. q ≡ QuoteStatus.select) qs) × All IsQuiet qs))
      × ((rollup_leg_target qs ≡ some LegStatus.partially_quoted)
          ↔ (In QuoteStatus.quoted qs × ¬ All IsQuiet qs))
      × ((t : LegStatus)
          → rollup_leg_target qs ≡ some t
          → (t ≡ LegStatus.fully_quoted) ⊎ (t ≡ LegStatus.partially_quoted))
unfolding rollup_leg_target
rollup_leg_target_iff qs =
    let ds = filter is_distributed qs in
    let quiet = all-filter_iff qs in
    let unsent = filter-eq-nil_iff qs in
    let quoted = any-filter_iff qs in
    let (fully, full) = target_of_fully_iff ds in
    let (partially, part) = target_of_partially_iff ds in
    (
      (
        λ h. (λ none_sent. (fully h).0 (unsent.1 none_sent), quiet.0 (fully h).1),
        λ h. full (λ e. h.0 (unsent.0 e), quiet.1 h.1),
      ),
      (
        λ h. (quoted.0 (partially h).0, λ all_quiet. (partially h).1 (quiet.1 all_quiet)),
        λ h. part (quoted.1 h.0, λ e. h.1 (quiet.0 e)),
      ),
      target_of_cases ds,
    )
