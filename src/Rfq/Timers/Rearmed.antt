-- ===== src/Rfq/Timers/Rearmed.antt =====
-- The timers of an RFQ after its window was reset are those of the new deadline, and no others.
use logistics.Common.{
  ℕ, ◌<◌, ◌≡◌, ◌↔◌, ◌⊎◌, refl, sym, subst, ap, ◌∙◌, inl, inr, Bool, true, false, ◌&&◌, not, List,
  [], ◌∷◌, ◌++◌, map, String, arith, In, any, includes, ◌-◌, ◌*◌, ◌==◌, string_eq, nat_eq, eq_iff,
  leb, Bool-cases,
}
use logistics.Common.Images.{map-In, In-map, filter-In_iff}
use logistics.Rfq.Timers.{
  Tier, hours_before, at_deadline, same_tier, ScheduledEvent, is_for, same_event, fresh_event,
  upsert, schedule, rfq_events, delete_events, hour, reminders, arm, rearm,
}

pub same_tier_iff : (s t : Tier) → (same_tier s t ≡ true) ↔ (s ≡ t)
same_tier_iff (hours_before m) (hours_before n) = ground arith
same_tier_iff (hours_before m) at_deadline = ground arith
same_tier_iff at_deadline (hours_before n) = ground arith
same_tier_iff at_deadline at_deadline = ground arith

module _ (entity_type entity_id event_key : String) (due : Tier → ℕ) where
  abbrev Fresh : Tier → ScheduledEvent
  Fresh t = fresh_event entity_type entity_id event_key t (due t)

  -- each row of this entity and event is a fresh one of its tier
  pub IsConsistent : List ScheduledEvent → Type 0
  IsConsistent rows =
      (r : ScheduledEvent)
      → In r rows
      → (is_for entity_type entity_id r && r.event_key == event_key) ≡ true
      → r ≡ Fresh r.tier

  append-In : {A : Type 0} (xs : List A) (x a : A) → In a (xs ++ (x ∷ [])) ↔ (In a xs ⊎ (a ≡ x))
  append-In [] x a = ground arith
  append-In (y ∷ ys) x a = ground (arith, append-In ys x a)

  any-found :
      (t : Tier) (rows : List ScheduledEvent)
      → any (same_event (Fresh t)) rows ≡ true
      → (r : ScheduledEvent) × In r rows × (same_event (Fresh t) r ≡ true)
  any-found t [] h = absurd (ground arith)
  any-found t (r ∷ rows) h = elim (Bool-cases (same_event (Fresh t) r)) [
    | inl same ↦ (r, inl refl, same)
    | inr other ↦ let (s, m, same) = any-found t rows (ground (arith, h, other)) in (s, inr m, same)
  ]

  upsert-In :
      (t : Tier) (rows : List ScheduledEvent) (a : ScheduledEvent)
      → IsConsistent rows
      → In a (upsert (Fresh t) rows) ↔ (In a rows ⊎ (a ≡ Fresh t))
  unfolding IsConsistent
  upsert-In t rows a consistent = elim (Bool-cases (any (same_event (Fresh t)) rows)) [
    | inl there ↦ rw there (
        let (r, m, same) = any-found t rows there in
        let tier : t ≡ r.tier = (same_tier_iff t r.tier).0 (ground (arith, same)) in
        let is_fresh : r ≡ Fresh t = consistent r m (ground (arith, same)) ∙ ap Fresh (sym tier) in
        (
          λ h. inl h,
          λ h. elim h [ inl h' ↦ h' | inr e ↦ subst (λ x. In x rows) (is_fresh ∙ sym e) m ],
        ))
    | inr new ↦ rw new (append-In rows (Fresh t) a)
  ]

  upsert-IsConsistent :
      (t : Tier) (rows : List ScheduledEvent)
      → IsConsistent rows
      → IsConsistent (upsert (Fresh t) rows)
  unfolding IsConsistent
  upsert-IsConsistent t rows consistent r m key = elim ((upsert-In t rows r consistent).0 m) [
    | inl m' ↦ consistent r m' key
    | inr e ↦ e ∙ ap Fresh (sym (ap (λ x. x.tier) e))
  ]

  abbrev entries_of : List Tier → List (Tier × ℕ)
  entries_of tiers = map (λ t. (t, due t)) tiers

  pub schedule-In :
      (now : ℕ) (tiers : List Tier) (rows : List ScheduledEvent) (a : ScheduledEvent)
      → IsConsistent rows
      → In a (schedule now entity_type entity_id event_key (entries_of tiers) rows)
        ↔ (In a rows ⊎ ((t : Tier) × In t tiers × (now < due t) × (a ≡ Fresh t)))
  unfolding schedule
  schedule-In now [] rows a consistent =
      (λ m. inl m, λ h. elim h [ inl m ↦ m | inr x ↦ absurd x.1 ])
  schedule-In now (t ∷ ts) rows a consistent = elim (Bool-cases (leb (due t) now)) [
    | inl past ↦
        rw (schedule, past)
          (let (to, from) = schedule-In now ts rows a consistent in
            (
              λ m. elim (to m) [
                | inl m' ↦ inl m'
                | inr (s, there, later, e) ↦ inr (s, inr there, later, e)
              ],
              λ h. elim h [
                | inl m ↦ from (inl m)
                | inr (s, there, later, e) ↦ elim there [
                  | inl same ↦ absurd (ground (arith, later, past, ap due same))
                  | inr there' ↦ from (inr (s, there', later, e))
                ]
              ],
            ))
    | inr future ↦
        rw (schedule, future)
          (let (to, from) =
              schedule-In now ts (upsert (Fresh t) rows) a
                (upsert-IsConsistent t rows consistent) in
            let (split, join) = upsert-In t rows a consistent in
            (
              λ m. elim (to m) [
                | inl m' ↦ elim (split m') [
                  | inl m'' ↦ inl m''
                  | inr e ↦ inr (t, inl refl, ground (arith, future), e)
                ]
                | inr (s, there, later, e) ↦ inr (s, inr there, later, e)
              ],
              λ h. elim h [
                | inl m ↦ from (inl (join (inl m)))
                | inr (s, there, later, e) ↦ elim there [
                  | inl same ↦ from (inl (join (inr (e ∙ ap Fresh same))))
                  | inr there' ↦ from (inr (s, there', later, e))
                ]
              ],
            ))
  ]

-- the event is a timer of the RFQ
abbrev pub is_timer_of : String → ScheduledEvent → Bool
is_timer_of rfq_id e = is_for "RFQ" rfq_id e && includes rfq_events e.event_key

-- when a tier of the deadline is due
abbrev pub due_off : ℕ → Tier → ℕ
due_off deadline (hours_before h) = deadline - h * hour
due_off deadline at_deadline = deadline

reminders-entries :
    (rfq_id : String) (deadline : ℕ) (offsets : List ℕ)
    → reminders deadline offsets
      ≡ entries_of "RFQ" rfq_id "rfq.reminder" (due_off deadline) (map hours_before offsets)
reminders-entries rfq_id deadline [] = refl
reminders-entries rfq_id deadline (h ∷ hs) =
    ap (λ es. (hours_before h, deadline - h * hour) ∷ es) (reminders-entries rfq_id deadline hs)

delete_events-In :
    (rfq_id : String) (rows : List ScheduledEvent) (e : ScheduledEvent)
    → In e (delete_events rfq_id rows) ↔ (In e rows × (is_timer_of rfq_id e ≡ false))
delete_events-In rfq_id rows e =
    ground (arith, filter-In_iff (λ e. not (is_timer_of rfq_id e)) rows e)

-- no timer of the RFQ is left, so any due times are those of its rows
delete_events-IsConsistent :
    (rfq_id key : String) (due : Tier → ℕ) (rows : List ScheduledEvent)
    → includes rfq_events key ≡ true
    → IsConsistent "RFQ" rfq_id key due (delete_events rfq_id rows)
unfolding IsConsistent
delete_events-IsConsistent rfq_id key due rows one r m named =
    let (_, left) = (delete_events-In rfq_id rows r).0 m in
    let same : r.event_key ≡ key = (eq_iff r.event_key key).0 (ground (arith, named)) in
    absurd (ground (arith, left, named, one, ap (includes rfq_events) same))

module _ (now : ℕ) (rfq_id : String) (deadline : ℕ) (offsets : List ℕ)
    (rows : List ScheduledEvent) where
  abbrev with_reminders : List ScheduledEvent
  with_reminders =
      schedule now "RFQ" rfq_id "rfq.reminder"
        (entries_of "RFQ" rfq_id "rfq.reminder" (due_off deadline) (map hours_before offsets))
        (delete_events rfq_id rows)

  with_reminders-In :
      (e : ScheduledEvent)
      → In e with_reminders ↔ (
          In e (delete_events rfq_id rows)
          ⊎ ((t : Tier) × In t (map hours_before offsets)
              × (now < due_off deadline t)
              × (e ≡ fresh_event "RFQ" rfq_id "rfq.reminder" t (due_off deadline t))))
  with_reminders-In e =
      schedule-In "RFQ" rfq_id "rfq.reminder" (due_off deadline) now (map hours_before offsets)
        (delete_events rfq_id rows) e
        (delete_events-IsConsistent rfq_id "rfq.reminder" (due_off deadline) rows refl)

  with_reminders-IsConsistent :
      IsConsistent "RFQ" rfq_id "rfq.expiry" (due_off deadline) with_reminders
  unfolding IsConsistent
  with_reminders-IsConsistent r m named = elim ((with_reminders-In r).0 m) [
    | inl kept ↦
        delete_events-IsConsistent rfq_id "rfq.expiry" (due_off deadline) rows refl r kept named
    | inr (t, _, _, e) ↦ absurd (ground (arith, named, ap (λ x. x.event_key == "rfq.expiry") e))
  ]

-- a row of the table afterwards: one that is no timer of the RFQ, a reminder that is still to come, or the
-- expiry
abbrev pub Rearmed : ℕ → String → ℕ → List ℕ → List ScheduledEvent → ScheduledEvent → Type 0
Rearmed now rfq_id deadline offsets rows e =
    (In e rows × (is_timer_of rfq_id e ≡ false))
    ⊎ ((h : ℕ) × In h offsets
        × (now < deadline - h * hour)
        × (e ≡ fresh_event "RFQ" rfq_id "rfq.reminder" (hours_before h) (deadline - h * hour)))
    ⊎ ((now < deadline) × (e ≡ fresh_event "RFQ" rfq_id "rfq.expiry" at_deadline deadline))

pub rearm-In :
    (now : ℕ) (rfq_id : String) (deadline : ℕ) (offsets : List ℕ) (rows : List ScheduledEvent)
    (e : ScheduledEvent)
    → In e (rearm now rfq_id deadline offsets rows) ↔ Rearmed now rfq_id deadline offsets rows e
unfolding rearm arm
rearm-In now rfq_id deadline offsets rows e =
    let middle = with_reminders now rfq_id deadline offsets rows in
    let (to, from) = with_reminders-In now rfq_id deadline offsets rows e in
    let (last_to, last_from) =
      schedule-In "RFQ" rfq_id "rfq.expiry" (due_off deadline) now (at_deadline ∷ []) middle e
        (with_reminders-IsConsistent now rfq_id deadline offsets rows) in
    let (kept_to, kept_from) = delete_events-In rfq_id rows e in
    rw (rearm, arm, reminders-entries rfq_id deadline offsets)
      (
        λ m. elim (last_to m) [
          | inl m' ↦ elim (to m') [
            | inl kept ↦ inl (kept_to kept)
            | inr (t, there, later, same) ↦
                let (h, offset, tier) = (map-In hours_before offsets t).0 there in
                inr (
                  inl (
                    h,
                    offset,
                    subst (λ x. now < due_off deadline x) tier later,
                    same
                        ∙ ap (λ x. fresh_event "RFQ" rfq_id "rfq.reminder" x (due_off deadline x))
                            tier,
                  ))
          ]
          | inr (t, there, later, same) ↦ elim there [
            | inl tier ↦ inr (
                inr (
                  subst (λ x. now < due_off deadline x) tier later,
                  same
                      ∙ ap (λ x. fresh_event "RFQ" rfq_id "rfq.expiry" x (due_off deadline x)) tier,
                ))
            | inr none_left ↦ absurd none_left
          ]
        ],
        λ h. elim h [
          | inl kept ↦ last_from (inl (from (inl (kept_from kept))))
          | inr new ↦ elim new [
            | inl (h, offset, later, same) ↦ last_from (
                inl
                  (from (inr (hours_before h, In-map hours_before offsets h offset, later, same))))
            | inr (later, same) ↦ last_from (inr (at_deadline, inl refl, later, same))
          ]
        ],
      )
