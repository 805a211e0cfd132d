-- ===== src/Status/Registry/Order.antt =====
-- The order in which modules initialise does not change a registered machine, and the check at the
-- end of the boot finds exactly the contributions that nothing registered.
use text.Mathlib.Text.{◌==◌}
use mathlib.Core.List.{append_assoc, append-nil}
use logistics.Common.{
  ◌≡◌, refl, ◌↔◌, ◌∙◌, sym, ap, inl, inr, Bool, true, false, Option, none, some, List, [], ◌∷◌,
  ◌++◌, String, arith, eq_iff, if◌then◌else◌, Option-cases, Bool-cases, is_some, ◌&&◌, ◌||◌, not,
}
use mathlib.Core.Option
use logistics.Common.Dict
use logistics.Status.Machine.{Transition, Machine}
use logistics.Status.Registry.{
  Registry, Setup, register_call, contribute_call, new, or_nil, register, contribute, get,
  on_application_bootstrap, run,
}

module _ {S E C : Type 0} where
  -- all that the calls contribute to a key, in order
  abbrev pub contributed : String → List (Setup S E C) → List (Transition S E C)
  contributed k [] = []
  contributed k (register_call m ∷ calls) = contributed k calls
  contributed k (contribute_call j ts ∷ calls) =
      if j == k then ts ++ contributed k calls else contributed k calls

  abbrev pub registers : String → List (Setup S E C) → Bool
  registers k [] = false
  registers k (register_call m ∷ calls) = if m.key == k then true else registers k calls
  registers k (contribute_call j ts ∷ calls) = registers k calls

  abbrev pub contributes : String → List (Setup S E C) → Bool
  contributes k [] = false
  contributes k (register_call m ∷ calls) = contributes k calls
  contributes k (contribute_call j ts ∷ calls) = if j == k then true else contributes k calls

  abbrev pub with_transitions : Machine S E C → List (Transition S E C) → Machine S E C
  with_transitions m ts = record m { transitions = m.transitions ++ ts }

  get-register :
      (m : Machine S E C) (k : String) (r : Registry S E C)
      → get k (register m r) ≡ (
          if m.key == k
          then some (with_transitions m (or_nil (Dict.get m.key r.pending)))
          else get k r)
  unfolding register get
  get-register m k r = Dict.get-set m.key k _ r.machines

  pending-register :
      (m : Machine S E C) (k : String) (r : Registry S E C)
      → Dict.get k (register m r).pending ≡ (if m.key == k then none else Dict.get k r.pending)
  unfolding register
  pending-register m k r = Dict.get-delete m.key k r.pending

  get-contribute :
      (j k : String) (ts : List (Transition S E C)) (r : Registry S E C)
      → get k (contribute j ts r)
        ≡ (if j == k then Option.map (λ m. with_transitions m ts) (get k r) else get k r)
  unfolding contribute get
  get-contribute j k ts r = elim (Option-cases (Dict.get j r.machines)) [
    | inl missing ↦ rw (missing, contribute) (ground (arith, eq_iff j k, missing))
    | inr (m, found) ↦
        rw (found, contribute)
          (Dict.get-set j k (with_transitions m ts) r.machines ∙ ground (arith, eq_iff j k, found))
  ]

  -- what is stashed for `j` after a contribution to it
  abbrev stash :
      Option (Machine S E C)
      → Option (List (Transition S E C))
      → List (Transition S E C)
      → Option (List (Transition S E C))
  stash none p ts = some (or_nil p ++ ts)
  stash (some m) p ts = p

  pending-contribute :
      (j k : String) (ts : List (Transition S E C)) (r : Registry S E C)
      → Dict.get k (contribute j ts r).pending
        ≡ (if j == k then stash (get k r) (Dict.get k r.pending) ts else Dict.get k r.pending)
  unfolding contribute get
  pending-contribute j k ts r = elim (Option-cases (Dict.get j r.machines)) [
    | inl missing ↦
        rw (missing, contribute)
          (Dict.get-set j k (or_nil (Dict.get j r.pending) ++ ts) r.pending
            ∙ ground (arith, eq_iff j k, missing))
    | inr (m, found) ↦ rw (found, contribute) (ground (arith, eq_iff j k, found))
  ]

  -- Once a key is registered, what is contributed to it is appended.
  pub run-registered :
      (calls : List (Setup S E C)) (k : String) (m : Machine S E C) (r : Registry S E C)
      → registers k calls ≡ false
      → get k r ≡ some m
      → get k (run calls r) ≡ some (with_transitions m (contributed k calls))
  unfolding run
  run-registered [] k m r h e = rw (append-nil m.transitions) e
  run-registered (register_call n ∷ calls) k m r h e =
      run-registered calls k m (register n r) (ground arith) (ground (arith, get-register n k r))
  run-registered (contribute_call j ts ∷ calls) k m r h e = elim (Bool-cases (j == k)) [
    | inl same ↦
        run-registered calls k (with_transitions m ts) (contribute j ts r) h
          (ground (arith, get-contribute j k ts r))
        ∙ rw (same, append_assoc m.transitions ts (contributed k calls))
    | inr other ↦
        run-registered calls k m (contribute j ts r) h (ground (arith, get-contribute j k ts r))
        ∙ rw other
  ]

  get-new : (k : String) → get {S = S} {E = E} {C = C} k new ≡ none
  unfolding get
  get-new k = Dict.get-empty k

  run-append :
      (xs ys : List (Setup S E C)) (r : Registry S E C) → run (xs ++ ys) r ≡ run ys (run xs r)
  unfolding run
  run-append [] ys r = refl
  run-append (register_call m ∷ xs) ys r = run-append xs ys (register m r)
  run-append (contribute_call k ts ∷ xs) ys r = run-append xs ys (contribute k ts r)

  contributed-append :
      (k : String) (xs ys : List (Setup S E C))
      → contributed k (xs ++ ys) ≡ contributed k xs ++ contributed k ys
  contributed-append k [] ys = refl
  contributed-append k (register_call m ∷ xs) ys = contributed-append k xs ys
  contributed-append k (contribute_call j ts ∷ xs) ys =
      ground
        (arith, contributed-append k xs ys, append_assoc ts (contributed k xs) (contributed k ys))

  -- the machine that a registration stores
  abbrev stored : Machine S E C → Registry S E C → Machine S E C
  stored m r = with_transitions m (or_nil (Dict.get m.key r.pending))

  -- Until a key is registered, what is contributed to it is stashed in order.
  run-stashed :
      (calls : List (Setup S E C)) (k : String) (r : Registry S E C)
      → registers k calls ≡ false
      → get k r ≡ none
      → (get k (run calls r) ≡ none)
        × (or_nil (Dict.get k (run calls r).pending)
            ≡ or_nil (Dict.get k r.pending) ++ contributed k calls)
  unfolding run
  run-stashed [] k r h e = (e, sym (append-nil _))
  run-stashed (register_call n ∷ calls) k r h e =
      let (a, b) =
        run-stashed calls k (register n r) (ground arith) (ground (arith, get-register n k r)) in
      (a, b ∙ ground (arith, pending-register n k r))
  run-stashed (contribute_call j ts ∷ calls) k r h e =
      let (a, b) =
        run-stashed calls k (contribute j ts r) h (ground (arith, get-contribute j k ts r)) in
      (
        a,
        b
            ∙ ground (
              arith,
              pending-contribute j k ts r,
              append_assoc (or_nil (Dict.get k r.pending)) ts (contributed k calls),
            ),
      )

  -- A machine that is registered once has its own transitions, then all those contributed to its
  -- key, in the order of the calls: it does not matter which of them came before the registration.
  pub get-run :
      (before after : List (Setup S E C)) (m : Machine S E C)
      → registers m.key before ≡ false
      → registers m.key after ≡ false
      → get m.key (run (before ++ register_call m ∷ after) new)
        ≡ some (with_transitions m (contributed m.key (before ++ after)))
  unfolding run
  get-run before after m h k =
      let r = run before new in
      let (_, stash_of) = run-stashed before m.key new h (get-new m.key) in
      let mid : get m.key (register m r) ≡ some (stored m r) =
        ground (arith, get-register m m.key r, eq_iff m.key m.key) in
      let appended = run-registered after m.key (stored m r) (register m r) k mid in
      ground (
        arith,
        appended,
        stash_of,
        eq_iff m.key m.key,
        run-append before (register_call m ∷ after) new,
        contributed-append m.key before after,
        Dict.get-empty {V = List (Transition S E C)} m.key,
        append_assoc m.transitions (contributed m.key before) (contributed m.key after),
      )

  -- A key that is registered has nothing stashed, and stays so.
  settled :
      (calls : List (Setup S E C)) (k : String) (m : Machine S E C) (r : Registry S E C)
      → get k r ≡ some m
      → Dict.get k r.pending ≡ none
      → Dict.get k (run calls r).pending ≡ none
  unfolding run
  settled [] k m r e p = p
  settled (register_call n ∷ calls) k m r e p = elim (Bool-cases (n.key == k)) [
    | inl same ↦
        settled calls k (stored n r) (register n r) (ground (arith, get-register n k r))
          (ground (arith, pending-register n k r))
    | inr other ↦
        settled calls k m (register n r) (ground (arith, get-register n k r))
          (ground (arith, pending-register n k r))
  ]
  settled (contribute_call j ts ∷ calls) k m r e p = elim (Bool-cases (j == k)) [
    | inl same ↦
        settled calls k (with_transitions m ts) (contribute j ts r)
          (ground (arith, get-contribute j k ts r)) (ground (arith, pending-contribute j k ts r))
    | inr other ↦
        settled calls k m (contribute j ts r) (ground (arith, get-contribute j k ts r))
          (ground (arith, pending-contribute j k ts r))
  ]

  is_some-pending :
      (calls : List (Setup S E C)) (k : String) (r : Registry S E C)
      → get k r ≡ none
      → is_some (Dict.get k (run calls r).pending)
        ≡ (not (registers k calls) && (is_some (Dict.get k r.pending) || contributes k calls))
  unfolding run
  is_some-pending [] k r e = ground arith
  is_some-pending (register_call n ∷ calls) k r e = elim (Bool-cases (n.key == k)) [
    | inl same ↦ rw same (
        ap is_some (
          settled calls k (stored n r) (register n r) (ground (arith, get-register n k r))
            (ground (arith, pending-register n k r))))
    | inr other ↦ rw other (
        is_some-pending calls k (register n r) (ground (arith, get-register n k r))
        ∙ ground (arith, pending-register n k r))
  ]
  is_some-pending (contribute_call j ts ∷ calls) k r e =
      is_some-pending calls k (contribute j ts r) (ground (arith, get-contribute j k ts r))
      ∙ ground (arith, pending-contribute j k ts r)

  -- The boot stops exactly if some call contributed to a key that no call registers.
  pub on_application_bootstrap-run :
      (calls : List (Setup S E C))
      → (on_application_bootstrap (run calls new) ≡ [])
        ↔ ((k : String) → contributes k calls ≡ true → registers k calls ≡ true)
  unfolding on_application_bootstrap
  on_application_bootstrap-run calls = (
    λ h k c. ground (
      arith,
      is_some-pending calls k new (get-new k),
      Dict.get-empty {V = List (Transition S E C)} k,
      Dict.get-eq-none_of_keys (run calls new).pending k h,
    ),
    λ h. Dict.keys-eq-nil (run calls new).pending (λ k. ground (
      arith,
      h k,
      is_some-pending calls k new (get-new k),
      Dict.get-empty {V = List (Transition S E C)} k,
    )),
  )
