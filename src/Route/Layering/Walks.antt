-- ===== src/Route/Layering/Walks.antt =====
-- The walks of a route's graph; without cycles, none is longer than the list of edges.
use logistics.Common.{
  Bool, true, Option, none, ltb, all, all_iff, All-In, ◌+◌, ◌<◌, ℕ, zero, suc, ◌+◌, ◌≤◌, ◌≡◌, refl,
  sym, ap, subst, inl, inr, true, Option, none, some, List, [], ◌∷◌, String, arith, string_eq, In,
  IsDistinct, length, ltb,
}
use logistics.Common.Counting.{IsDistinct-length}
use logistics.Route.Layering.{LayeringEdge, ends}

abbrev pub Joins : List LayeringEdge → String → String → Type 0
Joins es u v = (e : LayeringEdge) × In e es × (ends e ≡ some (u, v))

-- the walks from `u`, with their number of edges
pub data Walk (es : List LayeringEdge) (u : String) : ℕ → String → Type 0 where
  here : Walk es u zero u
  step : {n : ℕ} {v w : String} → Walk es u n v → Joins es v w → Walk es u (suc n) w

-- no walk comes back to where it began
abbrev pub IsAcyclic : List LayeringEdge → Type 0
IsAcyclic es = (u : String) (n : ℕ) → ¬ Walk es u (suc n) u

module _ (es : List LayeringEdge) where
  trail : {u v : String} {n : ℕ} → Walk es u n v → List LayeringEdge
  trail here = []
  trail (step w j) = j.0 ∷ trail w

  length-trail : {u v : String} {n : ℕ} (w : Walk es u n v) → length (trail w) ≡ n
  unfolding trail
  length-trail here = refl
  length-trail (step w j) = ap suc (length-trail w)

  trail-In :
      {u v : String} {n : ℕ} (w : Walk es u n v) (e : LayeringEdge) → In e (trail w) → In e es
  unfolding trail
  trail-In here e m = absurd m
  trail-In (step w j) e (inl same) = subst (λ x. In x es) (sym same) j.1
  trail-In (step w j) e (inr m) = trail-In w e m

  -- from the end of an edge of the walk, the walk goes on to its own end
  onward :
      {u v : String} {n : ℕ} (w : Walk es u n v) (e : LayeringEdge) (a b : String)
      → In e (trail w)
      → ends e ≡ some (a, b)
      → (m : ℕ) × Walk es b m v
  unfolding trail
  onward here e a b m h = absurd m
  onward (step {w = t} w j) e a b (inl same) h =
      let at : b ≡ t = cc (h, j.2, ap ends same) in (0, subst (λ x. Walk es x zero t) (sym at) here)
  onward (step w j) e a b (inr m) h = let (k, rest) = onward w e a b m h in (suc k, step rest j)

  trail-IsDistinct :
      IsAcyclic es → {u v : String} {n : ℕ} (w : Walk es u n v) → IsDistinct (trail w)
  unfolding trail
  trail-IsDistinct free here = tt
  trail-IsDistinct free (step {v} {w = t} w j) = (
    λ m. let (k, back) = onward w j.0 v t m j.2 in free t k (step back j),
    trail-IsDistinct free w,
  )

  -- Without cycles a walk uses no edge twice.
  pub Walk-le-length : IsAcyclic es → {u v : String} {n : ℕ} → Walk es u n v → n ≤ length es
  Walk-le-length free w =
      omega (
        arith,
        IsDistinct-length (trail w) es (trail-IsDistinct free w) (trail-In w),
        length-trail w,
      )

-- a rank that rises along the edge
abbrev pub ascends : (String → ℕ) → Option (String × String) → Bool
ascends rank none = true
ascends rank (some (u, v)) = ltb (rank u) (rank v)

module _ (rank : String → ℕ) (es : List LayeringEdge)
    (rises : all (λ e. ascends rank (ends e)) es ≡ true) where
  rank-lt : (u v : String) → Joins es u v → rank u < rank v
  rank-lt u v (e, m, joined) =
      let risen : ascends rank (ends e) ≡ true =
        All-In (λ x. ascends rank (ends x) ≡ true) es
          ((all_iff (λ x. ascends rank (ends x)) es).0 rises) m in
      let up : ascends rank (some (u, v)) ≡ true =
        subst (λ o. ascends rank o ≡ true) joined risen in
      ground (arith, up)

  Walk-rank : {u v : String} {n : ℕ} → Walk es u n v → rank u + n ≤ rank v
  Walk-rank here = omega arith
  Walk-rank (step {v} {w = t} w j) = omega (arith, Walk-rank w, rank-lt v t j)

  -- A graph whose edges all go up a rank has no cycle.
  pub IsAcyclic-of_rank : IsAcyclic es
  IsAcyclic-of_rank u n w = absurd (omega (arith, Walk-rank w))
