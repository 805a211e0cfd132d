-- ===== src/Route/Layering.antt =====
-- packages/shared/src/route-layering.ts: the depth of each point in the graph of a route.
pub mod Walks
pub mod Depth
use logistics.Common.{
  ℕ, zero, suc, ◌+◌, Bool, true, false, Option, none, some, List, [], ◌∷◌, String, ◌==◌, string_eq,
  length, ltb, if◌then◌else◌,
}
use logistics.Common.Dict
use logistics.Common.Dict.{Dict}

pub record LayeringEdge : Type 0 where
  pub origin_id : Option String
  pub destination_id : Option String

-- an id that is neither null nor empty
abbrev pub truthy : Option String → Option String
truthy none = none
truthy (some s) = if s == "" then none else some s

abbrev pub pair : Option String → Option String → Option (String × String)
pair none d = none
pair (some o) none = none
pair (some o) (some d) = some (o, d)

-- both ends of an edge that the passes read
abbrev pub ends : LayeringEdge → Option (String × String)
ends e = pair (truthy e.origin_id) (truthy e.destination_id)

-- `depth.get(id) ?? 0`
unfoldable pub depth_of : Dict ℕ → String → ℕ
depth_of depth id = elim (Dict.get id depth) [ none ↦ 0 | some n ↦ n ]

-- the map and the flag `changed`
abbrev pub Relaxed : Type 0
Relaxed = Dict ℕ × Bool

abbrev pub raise : Relaxed → String → String → Relaxed
raise r o d =
    let next = depth_of r.0 o + 1 in
    if ltb (depth_of r.0 d) next then (Dict.set d next r.0, true) else r

abbrev pub relax_ends : Relaxed → Option (String × String) → Relaxed
relax_ends r none = r
relax_ends r (some (o, d)) = raise r o d

unfoldable pub relax : Relaxed → LayeringEdge → Relaxed
relax r e = relax_ends r (ends e)

unfoldable pub pass : List LayeringEdge → Relaxed → Relaxed
unfolding relax
pass [] r = r
pass (e ∷ es) r = pass es (relax r e)

-- the passes that are left, with the early exit
unfoldable pub passes : ℕ → List LayeringEdge → Dict ℕ → Dict ℕ
unfolding pass
passes zero es depth = depth
passes (suc n) es depth =
    let r = pass es (depth, false) in elim r.1 [ true ↦ passes n es r.0 | false ↦ r.0 ]

unfoldable pub zero_depths : List String → Dict ℕ → Dict ℕ
zero_depths [] depth = depth
zero_depths (id ∷ ids) depth = zero_depths ids (Dict.set id 0 depth)

unfoldable pub compute_longest_path_depth : List String → List LayeringEdge → Dict ℕ
unfolding passes zero_depths
compute_longest_path_depth ids edges = passes (length edges + 2) edges (zero_depths ids Dict.empty)
