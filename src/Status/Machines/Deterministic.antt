-- ===== src/Status/Machines/Deterministic.antt =====
-- No two edges of a machine leave one state on one event, so the order in which modules contribute
-- their edges does not change which of them fires.
use logistics.Common.{
  ◌≡◌, refl, Bool, true, false, ◌&&◌, not, some, List, [], ◌∷◌, ◌++◌, arith, Eq, ◌==◌, includes,
  includes_iff, In, any, any_iff, Any, inl, inr, find?, find?_sound, find?-eq-none_iff, All-In,
  In-append_left, In-append_right, In-append_cases, Bool-cases, Option-cases, subst, sym, ◌∙◌,
}
use logistics.Status.Vocabulary.{
  LegStatus, LegEvent, QuoteStatus, QuoteEvent, leg_status_eq, leg_event_eq, quote_status_eq,
  quote_event_eq,
}
use logistics.Status.Machine.{Transition, Machine, fits, find_transition}
use logistics.Status.Registry.{Setup, register_call, new, get, run}
use logistics.Status.Registry.Order.{registers, contributed, with_transitions, get-run}
use logistics.Status.Machines.{
  FireContext, leg_machine, quote_machine, rfq_leg_transitions, award_leg_transitions,
  rfq_quote_transitions, award_quote_transitions, leg_app, quote_app,
}

module _ {S E C : Type 0} ⦃eS : Eq S⦄ ⦃eE : Eq E⦄ where
  -- do two edges share a source and the event?
  abbrev shares : Transition S E C → Transition S E C → Bool
  shares t u = t.event == u.event && any (includes u.from) t.from

  abbrev pub has_no_overlap : List (Transition S E C) → Bool
  has_no_overlap [] = true
  has_no_overlap (t ∷ ts) = not (any (shares t) ts) && has_no_overlap ts

  fits-shares :
      (s : S) (e : E) (t u : Transition S E C)
      → fits s e t ≡ true
      → fits s e u ≡ true
      → shares t u ≡ true
  fits-shares s e t u h k =
      let source : any (includes u.from) t.from ≡ true =
        (any_iff (includes u.from) t.from).1
          (common t.from (ground (arith, includes_iff t.from s))) in
      ground
        (arith, source, eE.same_iff t.event e, eE.same_iff u.event e, eE.same_iff t.event u.event)
    where
      common : (from : List S) → In s from → Any (λ x. includes u.from x ≡ true) from
      common [] m = absurd m
      common (x ∷ from) (inl same) = inl (subst (λ y. includes u.from y ≡ true) same (ground arith))
      common (x ∷ from) (inr m) = inr (common from m)

  any-of_In :
      (p : Transition S E C → Bool) (ts : List (Transition S E C)) (t : Transition S E C)
      → In t ts
      → p t ≡ true
      → any p ts ≡ true
  any-of_In p [] t m h = absurd m
  any-of_In p (x ∷ ts) t (inl same) h = rw (← same) (rw h)
  any-of_In p (x ∷ ts) t (inr m) h = ground (arith, any-of_In p ts t m h)

  find?-unique :
      (ts : List (Transition S E C)) (s : S) (e : E) (t : Transition S E C)
      → has_no_overlap ts ≡ true
      → In t ts
      → fits s e t ≡ true
      → find? (fits s e) ts ≡ some t
  find?-unique [] s e t d m h = absurd m
  find?-unique (x ∷ ts) s e t d (inl same) h = rw (← same) (rw h)
  find?-unique (x ∷ ts) s e t d (inr m) h =
      let clash =
        λ (k : fits s e x ≡ true). any-of_In (shares x) ts t m (fits-shares s e x t k h) in
      let rest = find?-unique ts s e t (ground arith) m h in
      elim (Bool-cases (fits s e x)) [
        | inl k ↦ absurd (ground (arith, clash k))
        | inr k ↦ rw k rest
      ]

  -- Where no two edges overlap, the edge that fires depends only on which edges there are.
  pub find_transition-same_edges :
      (m n : Machine S E C) (s : S) (e : E)
      → has_no_overlap m.transitions ≡ true
      → ((t : Transition S E C) → In t m.transitions → In t n.transitions)
      → ((t : Transition S E C) → In t n.transitions → In t m.transitions)
      → find_transition n s e ≡ find_transition m s e
  unfolding find_transition
  find_transition-same_edges m n s e d to from =
      elim (Option-cases (find? (fits s e) n.transitions)) [
        | inl missing ↦ elim (Option-cases (find? (fits s e) m.transitions)) [
          | inl absent ↦ missing ∙ sym absent
          | inr (t, found) ↦
              let (fit, member) = find?_sound (fits s e) m.transitions found in
              let h =
                All-In _ n.transitions ((find?-eq-none_iff (fits s e) n.transitions).0 missing)
                  (to t member) in
              absurd (ground arith)
        ]
        | inr (t, found) ↦
            let (fit, member) = find?_sound (fits s e) n.transitions found in
            found ∙ sym (find?-unique m.transitions s e t d (from t member) fit)
      ]

-- Two lists hold the same edges.
abbrev pub SameEdges : {S E C : Type 0} → List (Transition S E C) → List (Transition S E C) → Type 0
SameEdges ts us = ((t : _) → In t ts → In t us) × ((t : _) → In t us → In t ts)

module _ {S E C : Type 0} ⦃eS : Eq S⦄ ⦃eE : Eq E⦄ where
  boot :
      (own : Machine S E C) (edges : List (Transition S E C)) (before after : List (Setup S E C))
      → has_no_overlap (own.transitions ++ edges) ≡ true
      → registers own.key before ≡ false
      → registers own.key after ≡ false
      → SameEdges edges (contributed own.key (before ++ after))
      → (m : Machine S E C) × (get own.key (run (before ++ register_call own ∷ after) new) ≡ some m)
        × ((s : S) (e : E)
            → find_transition m s e ≡ find_transition (with_transitions own edges) s e)
  boot own edges before after d h k (to, from) = (
    with_transitions own (contributed own.key (before ++ after)),
    get-run before after own h k,
    λ s e.
        find_transition-same_edges (with_transitions own edges)
          (with_transitions own (contributed own.key (before ++ after))) s e d
          (widen edges (contributed own.key (before ++ after)) to)
          (widen (contributed own.key (before ++ after)) edges from),
  )
    where
      widen :
          (xs ys : List (Transition S E C))
          → ((t : Transition S E C) → In t xs → In t ys)
          → (t : Transition S E C) → In t (own.transitions ++ xs)
          → In t (own.transitions ++ ys)
      widen xs ys sub t m = elim (In-append_cases t own.transitions xs m) [
        | inl l ↦ In-append_left t own.transitions ys l
        | inr r ↦ In-append_right t own.transitions ys (sub t r)
      ]

-- Whatever the order in which the modules initialise, if `leg` is registered once and the other
-- modules contribute its edges, the registry answers a machine on which the same edge fires from
-- each state on each event as on the assembled one.
pub leg_boot :
    (before after : List (Setup LegStatus LegEvent FireContext))
    → registers "leg" before ≡ false
    → registers "leg" after ≡ false
    → SameEdges (rfq_leg_transitions ++ award_leg_transitions) (contributed "leg" (before ++ after))
    → (m : Machine LegStatus LegEvent FireContext) × (get "leg"
          (run (before ++ register_call leg_machine ∷ after) new)
        ≡ some m)
      × ((s : LegStatus) (e : LegEvent) → find_transition m s e ≡ find_transition leg_app s e)
leg_boot before after h k same =
    boot leg_machine (rfq_leg_transitions ++ award_leg_transitions) before after refl h k same

-- Whatever the order in which the modules initialise, if `quote` is registered once and the other
-- modules contribute its edges, the registry answers a machine on which the same edge fires from
-- each state on each event as on the assembled one.
pub quote_boot :
    (before after : List (Setup QuoteStatus QuoteEvent FireContext))
    → registers "quote" before ≡ false
    → registers "quote" after ≡ false
    → SameEdges
        (rfq_quote_transitions ++ award_quote_transitions)
        (contributed "quote" (before ++ after))
    → (m : Machine QuoteStatus QuoteEvent FireContext) × (get "quote"
          (run (before ++ register_call quote_machine ∷ after) new)
        ≡ some m)
      × ((s : QuoteStatus) (e : QuoteEvent) → find_transition m s e ≡ find_transition quote_app s e)
quote_boot before after h k same =
    boot quote_machine (rfq_quote_transitions ++ award_quote_transitions) before after refl h k same
