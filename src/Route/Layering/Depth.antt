-- ===== src/Route/Layering/Depth.antt =====
-- The depth of a point is the length of the longest walk that ends there.
use logistics.Common.{
  ℕ, zero, suc, ◌+◌, ◌≤◌, ◌≡◌, refl, sym, ap, subst, inl, inr, false, some, List, [], ◌∷◌, String,
  arith, string_eq, eq_iff, In, length, Bool-cases, Option-cases, ltb, if◌then◌else◌, ◌==◌, Bool,
  ◌∙◌, ◌&&◌,
}
use logistics.Common.Dict
use logistics.Common.Dict.{Dict}
use logistics.Route.Layering.{
  LayeringEdge, ends, depth_of, Relaxed, raise, relax_ends, relax, pass, passes, zero_depths,
  compute_longest_path_depth,
}
use logistics.Route.Layering.Walks.{Joins, Walk, here, step, IsAcyclic, Walk-le-length}

depth_of-set :
    (k j : String) (n : ℕ) (d : Dict ℕ)
    → depth_of (Dict.set k n d) j ≡ (if k == j then n else depth_of d j)
unfolding depth_of
depth_of-set k j n d = ground (arith, Dict.get-set k j n d)

depth_of-empty : (v : String) → depth_of Dict.empty v ≡ 0
unfolding depth_of
depth_of-empty v = ground (arith, Dict.get-empty {V = ℕ} v)

depth_of-zero_depths :
    (ids : List String) (d : Dict ℕ) (v : String)
    → depth_of d v ≡ 0
    → depth_of (zero_depths ids d) v ≡ 0
unfolding zero_depths
depth_of-zero_depths [] d v h = h
depth_of-zero_depths (k ∷ ids) d v h =
    depth_of-zero_depths ids (Dict.set k 0 d) v (ground (arith, depth_of-set k v 0 d))

depth_of-raise :
    (r : Relaxed) (o d v : String)
    → depth_of (raise r o d).0 v ≡ (
        if d == v && ltb (depth_of r.0 v) (depth_of r.0 o + 1)
        then depth_of r.0 o + 1
        else depth_of r.0 v)
depth_of-raise r o d v = ground (
  arith,
  depth_of-set d v (depth_of r.0 o + 1) r.0,
  eq_iff d v,
  ap (depth_of r.0) {x = d} {y = v},
)

relax_mono :
    (r : Relaxed) (e : LayeringEdge) (v : String) → depth_of r.0 v ≤ depth_of (relax r e).0 v
unfolding relax
relax_mono r e v = elim (Option-cases (ends e)) [
  | inl broken ↦
      subst (λ x. depth_of r.0 v ≤ depth_of (relax_ends r x).0 v) (sym broken) (omega arith)
  | inr ((o, d), joined) ↦
      subst (λ x. depth_of r.0 v ≤ depth_of (relax_ends r x).0 v) (sym joined)
        (ground (arith, depth_of-raise r o d v))
]

relax_raises :
    (r : Relaxed) (e : LayeringEdge) (o d : String)
    → ends e ≡ some (o, d)
    → suc (depth_of r.0 o) ≤ depth_of (relax r e).0 d
unfolding relax
relax_raises r e o d joined =
    subst (λ x. suc (depth_of r.0 o) ≤ depth_of (relax_ends r x).0 d) (sym joined)
      (ground (arith, depth_of-raise r o d d, eq_iff d d))

pass_mono :
    (es : List LayeringEdge) (r : Relaxed) (v : String) → depth_of r.0 v ≤ depth_of (pass es r).0 v
unfolding pass
pass_mono [] r v = omega arith
pass_mono (e ∷ es) r v = omega (arith, relax_mono r e v, pass_mono es (relax r e) v)

-- A pass lifts the end of every edge above its origin.
pass_raises :
    (es : List LayeringEdge) (r : Relaxed) (o d : String)
    → Joins es o d
    → suc (depth_of r.0 o) ≤ depth_of (pass es r).0 d
unfolding pass
pass_raises [] r o d j = absurd j.1
pass_raises (e ∷ es) r o d (f, inl same, joined) =
    omega (arith, relax_raises r e o d (sym (ap ends same) ∙ joined), pass_mono es (relax r e) d)
pass_raises (e ∷ es) r o d (f, inr m, joined) =
    omega (arith, relax_mono r e o, pass_raises es (relax r e) o d (f, m, joined))

relax_unchanged : (r : Relaxed) (e : LayeringEdge) → (relax r e).1 ≡ false → relax r e ≡ r
unfolding relax
relax_unchanged r e h = ground arith

pass_unchanged : (es : List LayeringEdge) (r : Relaxed) → (pass es r).1 ≡ false → pass es r ≡ r
unfolding pass
pass_unchanged [] r h = refl
pass_unchanged (e ∷ es) r h =
    let rest = pass_unchanged es (relax r e) h in
    rest ∙ relax_unchanged r e (sym (ap (λ x. x.1) rest) ∙ h)

module _ (es : List LayeringEdge) where
  -- every depth is the length of some walk
  abbrev IsWitnessed : Dict ℕ → Type 0
  IsWitnessed d = (v : String) → (u : String) × Walk es u (depth_of d v) v

  -- every walk of at most `k` edges is counted
  abbrev Counts : ℕ → Dict ℕ → Type 0
  Counts k d = (u v : String) (n : ℕ) → Walk es u n v → n ≤ k → n ≤ depth_of d v

  abbrev CountsAll : Dict ℕ → Type 0
  CountsAll d = (u v : String) (n : ℕ) → Walk es u n v → n ≤ depth_of d v

  raise-IsWitnessed :
      (r : Relaxed) (o d : String) → Joins es o d → IsWitnessed r.0 → IsWitnessed (raise r o d).0
  raise-IsWitnessed r o d j h v =
      elim (Bool-cases (d == v && ltb (depth_of r.0 v) (depth_of r.0 o + 1))) [
        | inr kept ↦ rw (depth_of-raise r o d v, kept) (h v)
        | inl raised ↦
            let (u, w) = h o in
            let at : d ≡ v = ground (arith, eq_iff d v) in
            let long : suc (depth_of r.0 o) ≡ depth_of r.0 o + 1 = omega arith in
            rw (depth_of-raise r o d v, raised)
              (
                u,
                subst (λ x. Walk es u (depth_of r.0 o + 1) x) at
                    (subst (λ n. Walk es u n d) long (step w j)),
              )
      ]

  relax-IsWitnessed :
      (r : Relaxed) (e : LayeringEdge) → In e es → IsWitnessed r.0 → IsWitnessed (relax r e).0
  unfolding relax
  relax-IsWitnessed r e m h = elim (Option-cases (ends e)) [
    | inl broken ↦ subst (λ x. IsWitnessed (relax_ends r x).0) (sym broken) h
    | inr ((o, d), joined) ↦
        subst (λ x. IsWitnessed (relax_ends r x).0) (sym joined)
          (raise-IsWitnessed r o d (e, m, joined) h)
  ]

  pass-IsWitnessed :
      (fs : List LayeringEdge) (r : Relaxed)
      → ((e : LayeringEdge) → In e fs → In e es)
      → IsWitnessed r.0
      → IsWitnessed (pass fs r).0
  unfolding pass
  pass-IsWitnessed [] r into h = h
  pass-IsWitnessed (e ∷ fs) r into h =
      pass-IsWitnessed fs (relax r e) (λ f m. into f (inr m))
        (relax-IsWitnessed r e (into e (inl refl)) h)

  pass-Counts : (k : ℕ) (d : Dict ℕ) (c : Bool) → Counts k d → Counts (suc k) (pass es (d, c)).0
  pass-Counts k d c h u v zero w le = omega arith
  pass-Counts k d c h u v (suc n) (step {v = t} w j) le =
      omega (arith, h u t n w (omega arith), pass_raises es (d, c) t v j)

  settled-CountsAll : (d : Dict ℕ) → (pass es (d, false)).1 ≡ false → CountsAll d
  settled-CountsAll d still u v zero w = omega arith
  settled-CountsAll d still u v (suc n) (step {v = t} w j) =
      let raised : suc (depth_of d t) ≤ depth_of d v =
        subst (λ (x : Relaxed). suc (depth_of d t) ≤ depth_of x.0 v)
          (pass_unchanged es (d, false) still) (pass_raises es (d, false) t v j) in
      omega (arith, settled-CountsAll d still u t n w, raised)

  passes-IsWitnessed : (n : ℕ) (d : Dict ℕ) → IsWitnessed d → IsWitnessed (passes n es d)
  unfolding passes
  passes-IsWitnessed zero d h = h
  passes-IsWitnessed (suc n) d h =
      let next = pass-IsWitnessed es (d, false) (λ e m. m) h in
      elim (Bool-cases (pass es (d, false)).1) [
        | inl more ↦ rw (more, passes) (passes-IsWitnessed n (pass es (d, false)).0 next)
        | inr still ↦ rw (still, passes) next
      ]

  passes-CountsAll :
      IsAcyclic es
      → (n k : ℕ) (d : Dict ℕ) → length es ≤ k + n
      → Counts k d
      → CountsAll (passes n es d)
  unfolding passes
  passes-CountsAll free zero k d fuel h =
      λ u v m w. h u v m w (omega (arith, Walk-le-length es free w))
  passes-CountsAll free (suc n) k d fuel h = elim (Bool-cases (pass es (d, false)).1) [
    | inl more ↦
        rw (more, passes)
          (passes-CountsAll free n (suc k) (pass es (d, false)).0 (omega arith)
            (pass-Counts k d false h))
    | inr still ↦ rw (still, passes, pass_unchanged es (d, false) still) (settled-CountsAll d still)
  ]

-- Of a graph without cycles the passes end with the depth of every point, one that is not among the
-- given ids too, at the length of a longest walk that ends there: some walk has that length, and
-- none is longer. So the cap on the passes is high enough.
pub compute_longest_path_depth_lem :
    (ids : List String) (edges : List LayeringEdge)
    → IsAcyclic edges
    → (v : String)
    → let depth = depth_of (compute_longest_path_depth ids edges) v in
      ((u : String) × Walk edges u depth v) × ((u : String) (n : ℕ) → Walk edges u n v → n ≤ depth)
unfolding compute_longest_path_depth
compute_longest_path_depth_lem ids edges free v =
    let start = zero_depths ids Dict.empty in
    let flat : (x : String) → depth_of start x ≡ 0 =
      λ x. depth_of-zero_depths ids Dict.empty x (depth_of-empty x) in
    (
      passes-IsWitnessed edges (length edges + 2) start
          (λ x. (x, subst (λ n. Walk edges x n x) (sym (flat x)) here)) v,
      λ u n w.
          passes-CountsAll edges free (length edges + 2) 0 start (omega arith)
            (λ a b m walk le. omega arith) u v n w,
    )
