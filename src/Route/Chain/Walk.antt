-- ===== src/Route/Chain/Walk.antt =====
-- A walk that draws no finding takes each of its edges once, in order, from its start to its end.
use logistics.Common.{
  ℕ, zero, suc, ◌+◌, ◌≤◌, ◌<◌, ◌≡◌, refl, sym, subst, ap, ◌∙◌, inl, inr, false, Option, none, some,
  List, [], ◌∷◌, map, String, arith, In, IsDistinct, length, ltb, includes, Bool-cases, ◌==◌,
  string_eq, eq_iff,
}
use logistics.Common.Images.{map-In, filter-In_iff}
use logistics.Findings.{Severity}
use logistics.Quote.Rules.{Clock}
use logistics.Route.Graph.{RouteCargo, RouteGraph}
use logistics.Route.Chain.{Hop, out_edges, is_early, to_time, Walked, arrived, take, walk}

-- the hops lead from one point to the other
abbrev pub Leads : String → List Hop → String → Type 0
Leads s [] t = s ≡ t
Leads s (h ∷ hs) t = (h.origin ≡ s) × Leads h.destination hs t

-- Where both dates can be read, the hop does not depart before the one in front of it arrives.
abbrev pub IsPrompt : Clock → Option Hop → Hop → Type 0
IsPrompt clock none h = Unit
IsPrompt clock (some prev) h =
    (departure arrival : clock.Time)
    → to_time clock h.leg.ready_date ≡ some departure
    → to_time clock prev.leg.target_delivery ≡ some arrival
    → clock.earlier departure arrival ≡ false

is_early-IsPrompt :
    (clock : Clock) (prev : Option Hop) (h : Hop)
    → is_early clock prev h ≡ false
    → IsPrompt clock prev h
is_early-IsPrompt clock none h timely = tt
is_early-IsPrompt clock (some prev) h timely = λ departure arrival d a. ground (arith, timely, d, a)

-- no hop departs before the one in front of it arrives
abbrev pub InOrder : Clock → Option Hop → List Hop → Type 0
InOrder clock prev [] = Unit
InOrder clock prev (h ∷ hs) = IsPrompt clock prev h × InOrder clock (some h) hs

origin_of_out_edge :
    (edges : List Hop) (n : String) (e : Hop)
    → out_edges edges n ≡ e ∷ []
    → In e edges × (e.origin ≡ n)
origin_of_out_edge edges n e only =
    let (member, at) =
      (filter-In_iff (λ x. x.origin == n) edges e).0 (subst (In e) (sym only) (inl refl)) in
    (member, (eq_iff e.origin n).0 at)

module _ (clock : Clock) (severity : Severity) (graph : RouteGraph) (c : RouteCargo) where
  take_clear :
      (bound steps : ℕ) (cur : String) (prev : Option Hop) (es : List Hop) (rest : Hop → Walked)
      → (take clock severity graph c bound steps cur prev es rest).findings ≡ []
      → (e : Hop) × (es ≡ e ∷ [])
        × (is_early clock prev e ≡ false)
        × (suc steps ≤ bound)
        × ((rest e).findings ≡ [])
        × ((take clock severity graph c bound steps cur prev es rest).steps ≡ (rest e).steps)
        × ((take clock severity graph c bound steps cur prev es rest).ending ≡ (rest e).ending)
  take_clear bound steps cur prev [] rest h = absurd (ground arith)
  take_clear bound steps cur prev (e ∷ f ∷ es) rest h = absurd (ground arith)
  take_clear bound steps cur prev (e ∷ []) rest h = elim (Bool-cases (is_early clock prev e)) [
    | inl early ↦ absurd (ground (arith, early))
    | inr timely ↦ elim (Bool-cases (ltb bound (suc steps))) [
      | inl over ↦ absurd (ground (arith, timely, over))
      | inr within ↦ (
        e,
        refl,
        timely,
        ground (arith, within),
        ground (arith, timely, within),
        ground (arith, timely, within),
        ground (arith, timely, within),
      )
    ]
  ]

  -- what the walk has taken, if it draws no finding
  pub record Taken (edges : List Hop) (start end : String) (visited : List String)
      (prev : Option Hop) (taken : ℕ) : Type 0 where
    pub path : List Hop
    pub leads : Leads start path end
    pub count : length path ≡ taken
    pub inside : (h : Hop) → In h path → In h edges
    pub once : IsDistinct (map (λ h. h.origin) path)
    pub new : (h : Hop) → In h path → includes visited h.origin ≡ false
    pub in_order : InOrder clock prev path

  extend :
      (edges : List Hop) (cur end : String) (visited : List String) (prev : Option Hop) (n : ℕ)
      (e : Hop)
      → out_edges edges cur ≡ e ∷ []
      → is_early clock prev e ≡ false
      → includes visited cur ≡ false
      → Taken edges e.destination end (cur ∷ visited) (some e) n
      → Taken edges cur end visited prev (suc n)
  extend edges cur end visited prev n e only timely fresh t =
      let (member, at) = origin_of_out_edge edges cur e only in
      record {
        path = e ∷ t.path;
        leads = (at, t.leads);
        count = ap suc t.count;
        inside = λ h m. elim m [
          | inl same ↦ subst (λ x. In x edges) (sym same) member
          | inr m' ↦ t.inside h m'
        ];
        once = (
          λ m.
              let (h, m', same) = (map-In (λ h. h.origin) t.path e.origin).0 m in
              ground (arith, t.new h m', eq_iff cur h.origin, same, at),
          t.once,
        );
        new = λ h m. elim m [
          | inl same ↦
              subst (λ x. includes visited x ≡ false) (sym at ∙ sym (ap (λ x. x.origin) same)) fresh
          | inr m' ↦ ground (arith, t.new h m')
        ];
        in_order = (is_early-IsPrompt clock prev e timely, t.in_order);
      }

  -- Enough fuel is given, so a walk without findings arrives.
  pub walk-Taken :
      (fuel : ℕ) (edges : List Hop) (end cur : String) (visited : List String) (steps : ℕ)
      (prev : Option Hop)
      → suc (length edges) < fuel + steps
      → steps ≤ length edges
      → (walk clock severity graph c fuel edges end cur visited steps prev).findings ≡ []
      → (n : ℕ) × Taken edges cur end visited prev n
        × ((walk clock severity graph c fuel edges end cur visited steps prev).steps ≡ n + steps)
        × ((walk clock severity graph c fuel edges end cur visited steps prev).ending ≡ arrived)
  unfolding walk
  walk-Taken zero edges end cur visited steps prev fuels within h = absurd (omega arith)
  walk-Taken (suc fuel) edges end cur visited steps prev fuels within h =
      elim (Bool-cases (cur == end)) [
        | inl there ↦ (
          0,
          record {
            path = [];
            leads = (eq_iff cur end).0 there;
            count = refl;
            inside = λ h m. absurd m;
            once = tt;
            new = λ h m. absurd m;
            in_order = tt;
          },
          rw (walk, there) (omega arith),
          rw (walk, there) refl,
        )
        | inr far ↦ elim (Bool-cases (includes visited cur)) [
          | inl again ↦ absurd (ground (arith, rw (walk, far, again) at h))
          | inr fresh ↦
              let rest = λ (e : Hop).
                walk clock severity graph c fuel edges end e.destination (cur ∷ visited) (suc steps)
                  (some e) in
              let (e, only, timely, bound, clear, same, ends) =
                take_clear (length edges) steps cur prev (out_edges edges cur) rest
                  (rw (walk, far, fresh) at h) in
              let (n, t, counted, comes) =
                walk-Taken fuel edges end e.destination (cur ∷ visited) (suc steps) (some e)
                  (omega arith) bound clear in
              (
                suc n,
                extend edges cur end visited prev n e only timely fresh t,
                rw (walk, far, fresh) (same ∙ counted ∙ omega arith),
                rw (walk, far, fresh) (ends ∙ comes),
              )
        ]
      ]
