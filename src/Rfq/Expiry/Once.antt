-- ===== src/Rfq/Expiry/Once.antt =====
-- A timer goes off once: a run leaves no due event pending, so that a second one fires nothing.
use logistics.Common.{
  ℕ, ◌≡◌, refl, sym, subst, ap, ◌∙◌, inl, inr, Bool, true, false, ◌&&◌, some, List, [], ◌∷◌, String,
  arith, In, All, In-All, any, filter, ◌==◌, string_eq, nat_eq, eq_iff, Bool-cases, if◌then◌else◌,
  is_some,
}
use logistics.Common.Dict
use logistics.Common.Images.{map-In, filter-In_iff}
use logistics.Rfq.Timers.{
  Tier, hours_before, at_deadline, same_tier, ScheduledEvent, is_for, same_event, is_outstanding,
  cancel,
}
use logistics.Rfq.Expiry.{RfqDb, is_due, is_claimable, claim, emit, on_expiry, run_events, run_due}

same_tier_refl : (t : Tier) → same_tier t t ≡ true
same_tier_refl (hours_before n) = ground (arith)
same_tier_refl at_deadline = refl

same_event_refl : (e : ScheduledEvent) → same_event e e ≡ true
same_event_refl e = ground (
  arith,
  same_tier_refl e.tier,
  eq_iff e.entity_type e.entity_type,
  eq_iff e.entity_id e.entity_id,
  eq_iff e.event_key e.event_key,
)

-- the row waits for an event of the list
Awaits : List ScheduledEvent → ScheduledEvent → Type 0
Awaits es row = any (λ e. same_event e row) es ≡ true

-- every row that is due waits for an event of the list
IsCovered : ℕ → List ScheduledEvent → List ScheduledEvent → Type 0
IsCovered now es rows = (row : ScheduledEvent) → In row rows → is_due now row ≡ true → Awaits es row

any-In : {A : Type 0} (p : A → Bool) (xs : List A) (x : A) → In x xs → p x ≡ true → any p xs ≡ true
any-In p [] x m h = absurd m
any-In p (y ∷ ys) x (inl same) h = ground (arith, h, ap p same)
any-In p (y ∷ ys) x (inr m) h = ground (arith, any-In p ys x m h)

any-false-In :
    {A : Type 0} (p : A → Bool) (xs : List A) (x : A) → In x xs → any p xs ≡ false → p x ≡ false
any-false-In p xs x m h = elim (Bool-cases (p x)) [
  | inl yes_p ↦ ground (arith, any-In p xs x m yes_p, h)
  | inr no_p ↦ no_p
]

filter-nil :
    {A : Type 0} (p : A → Bool) (xs : List A) → All (λ x. p x ≡ false) xs → filter p xs ≡ []
filter-nil p [] h = refl
filter-nil p (x ∷ xs) h = ground (arith, filter-nil p xs h.1, h.0)

filter-IsCovered :
    (now : ℕ) (rows : List ScheduledEvent) → IsCovered now (filter (is_due now) rows) rows
unfolding IsCovered Awaits
filter-IsCovered now rows row m due =
    any-In (λ e. same_event e row) (filter (is_due now) rows) row
      ((filter-In_iff (is_due now) rows row).1 (m, due)) (same_event_refl row)

-- an event that is not pending is not due
not_due : (now : ℕ) (e : ScheduledEvent) → is_outstanding e ≡ false → is_due now e ≡ true → ⊥
not_due now e stopped due = ground arith

cancel-IsCovered :
    (now at : ℕ) (t i k : String) (es rows : List ScheduledEvent)
    → IsCovered now es rows
    → IsCovered now es (cancel at t i k rows)
unfolding cancel IsCovered Awaits
cancel-IsCovered now at t i k es rows h row m due =
    let test = λ (e : ScheduledEvent). is_for t i e && e.event_key == k && is_outstanding e in
    let write = λ (e : ScheduledEvent). if test e then record e { cancelled_at = some at } else e in
    let (r, there, same) = (map-In write rows row).0 m in
    elim (Bool-cases (test r)) [
      | inl waits ↦
          let stopped : row ≡ record r { cancelled_at = some at } = same ∙ rw waits refl in
          absurd (
            not_due now (record r { cancelled_at = some at }) (ground arith)
              (sym (ap (is_due now) stopped) ∙ due))
      | inr quiet ↦
          let kept : row ≡ r = same ∙ rw quiet refl in
          subst (λ x. any (λ e. same_event e x) es ≡ true) (sym kept)
            (h r there (sym (ap (is_due now) kept) ∙ due))
    ]

skip-IsCovered :
    (now : ℕ) (e : ScheduledEvent) (es rows : List ScheduledEvent)
    → any (is_claimable e) rows ≡ false
    → IsCovered now (e ∷ es) rows
    → IsCovered now es rows
unfolding IsCovered Awaits
skip-IsCovered now e es rows quiet h row m due =
    ground (arith, any-false-In (is_claimable e) rows row m quiet, h row m due, due)

module _ {M : Type 0} where
  claim-IsCovered :
      (now : ℕ) (e : ScheduledEvent) (es : List ScheduledEvent) (db : RfqDb M)
      → IsCovered now (e ∷ es) db.timers
      → IsCovered now es (claim now e db).timers
  unfolding IsCovered Awaits
  claim-IsCovered now e es db h row m due =
      let write =
        λ (r : ScheduledEvent). if is_claimable e r then record r { fired_at = some now } else r in
      let (r, there, same) = (map-In write db.timers row).0 m in
      elim (Bool-cases (is_claimable e r)) [
        | inl waits ↦
            let fired : row ≡ record r { fired_at = some now } = same ∙ rw waits refl in
            absurd (
              not_due now (record r { fired_at = some now }) refl
                (sym (ap (is_due now) fired) ∙ due))
        | inr other ↦
            let kept : row ≡ r = same ∙ rw other refl in
            let due_r : is_due now r ≡ true = sym (ap (is_due now) kept) ∙ due in
            subst (λ x. any (λ e. same_event e x) es ≡ true) (sym kept)
              (ground (arith, h r there due_r, due_r, other))
      ]

  emit-IsCovered :
      (now : ℕ) (e : ScheduledEvent) (es : List ScheduledEvent) (db : RfqDb M)
      → IsCovered now es db.timers
      → IsCovered now es (emit now e db).timers
  unfolding on_expiry
  emit-IsCovered now e es db h = elim (Bool-cases (e.event_key == "rfq.expiry")) [
    | inl expiry ↦ elim (Bool-cases (is_some (Dict.get e.entity_id db.rfqs))) [
      | inl found ↦
          rw (expiry, on_expiry, found)
            (cancel-IsCovered now now "RFQ" e.entity_id "rfq.reminder" es db.timers h)
      | inr missing ↦ rw (expiry, on_expiry, missing) h
    ]
    | inr reminder ↦ rw reminder h
  ]

  run_events-IsCovered :
      (now : ℕ) (es : List ScheduledEvent) (db : RfqDb M)
      → IsCovered now es db.timers
      → IsCovered now [] (run_events now es db).1.timers
  unfolding run_events
  run_events-IsCovered now [] db h = h
  run_events-IsCovered now (e ∷ es) db h = elim (Bool-cases (any (is_claimable e) db.timers)) [
    | inl claims ↦
        rw (run_events, claims)
          (run_events-IsCovered now es (emit now e (claim now e db))
            (emit-IsCovered now e es (claim now e db) (claim-IsCovered now e es db h)))
    | inr quiet ↦
        rw (run_events, quiet)
          (run_events-IsCovered now es db (skip-IsCovered now e es db.timers quiet h))
  ]

  nothing_due :
      (now : ℕ) (db : RfqDb M)
      → All (λ e. is_due now e ≡ false) db.timers
      → run_due now db ≡ (0, db)
  unfolding run_due run_events
  nothing_due now db quiet = rw (run_due, filter-nil (is_due now) db.timers quiet) refl

  run_due-quiet :
      (now : ℕ) (db : RfqDb M) (row : ScheduledEvent)
      → In row (run_due now db).1.timers
      → is_due now row ≡ false
  unfolding run_due IsCovered Awaits
  run_due-quiet now db row m = elim (Bool-cases (is_due now row)) [
    | inl due ↦
        let covered =
          run_events-IsCovered now (filter (is_due now) db.timers) db
            (filter-IsCovered now db.timers) row m due in
        absurd (ground (arith, covered))
    | inr quiet ↦ quiet
  ]

  -- A run of the timers leaves none that is due and pending, so that a second run at the same time fires
  -- nothing and changes nothing.
  pub run_due-run_due :
      (now : ℕ) (db : RfqDb M)
      → let after = (run_due now db).1 in
        All (λ e. is_due now e ≡ false) after.timers × (run_due now after ≡ (0, after))
  run_due-run_due now db =
      let after = (run_due now db).1 in
      let quiet =
        In-All (λ e. is_due now e ≡ false) after.timers (λ e m. run_due-quiet now db e m) in
      (quiet, nothing_due now after quiet)
