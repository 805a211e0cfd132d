-- ===== src/Quote/Charges/Gates.antt =====
-- Which lines a quote must price.
use logistics.Common.{
  ◌≡◌, refl, ◌↔◌, ◌⊎◌, ◌≤◌, Bool, true, ◌&&◌, Option, none, some, List, [], ◌∷◌, map, String, arith,
  In, All, includes_iff, string_eq, filter,
}
use logistics.Common.Sort.{sort_by-In, sort_by-IsSorted, IsSorted}
use logistics.Common.Images.{filter-In_iff}
use logistics.Quote.Charges.{
  core, standard, tag_driven, plain, heavy_weight_calc, ChargeLineDefinitionDto, ResolvedChargeLine,
  is_line, is_chosen, has_tag, by_sort_order, chosen, resolve_charge_config,
}

-- the definition is one whose line has to be priced
abbrev pub IsDue : List String → List String → ChargeLineDefinitionDto → Type 0
IsDue selected tags d =
    (d.is_active ≡ true)
    × ((d.input_type ≡ plain) ⊎ (d.input_type ≡ heavy_weight_calc))
    × ((d.role ≡ core)
        ⊎ ((d.role ≡ standard) × In d.key selected)
        ⊎ ((d.role ≡ tag_driven)
            × In d.key selected
            × ((tag : String) × (d.tag_key ≡ some tag) × In tag tags)))

has_tag_iff :
    (tags : List String) (o : Option String)
    → (has_tag tags o ≡ true) ↔ ((tag : String) × (o ≡ some tag) × In tag tags)
has_tag_iff tags none = (λ h. absurd (ground arith), λ h. absurd (ground (arith, h.1)))
has_tag_iff tags (some t) = (
  λ h. (t, refl, (includes_iff tags t).0 h),
  λ h. ground (arith, h.1, includes_iff tags h.0, h.2),
)

IsDue-iff :
    (selected tags : List String) (d : ChargeLineDefinitionDto)
    → (((d.is_active && is_line d.input_type) ≡ true) × (is_chosen selected tags d ≡ true))
      ↔ IsDue selected tags d
IsDue-iff selected tags d = (
  λ h. (ground arith, ground arith, role.0 h.1),
  λ h. let (active, type_, let_in) = h in (ground arith, role.1 let_in),
)
  where
    role : (is_chosen selected tags d ≡ true) ↔ (
        (d.role ≡ core)
        ⊎ ((d.role ≡ standard) × In d.key selected)
        ⊎ ((d.role ≡ tag_driven)
            × In d.key selected
            × ((tag : String) × (d.tag_key ≡ some tag) × In tag tags)))
    role = ground (arith, includes_iff selected d.key, has_tag_iff tags d.tag_key)

chosen-In :
    (definitions : List ChargeLineDefinitionDto) (selected tags : List String)
    (d : ChargeLineDefinitionDto)
    → In d (chosen definitions selected tags) ↔ (In d definitions × IsDue selected tags d)
unfolding chosen
chosen-In definitions selected tags d =
    let active =
      filter (λ (x : ChargeLineDefinitionDto). x.is_active && is_line x.input_type) definitions in
    let (s, t) = sort_by-In by_sort_order (filter (is_chosen selected tags) active) d in
    let (a, b) = filter-In_iff (is_chosen selected tags) active d in
    let (u, v) =
      filter-In_iff (λ (x : ChargeLineDefinitionDto). x.is_active && is_line x.input_type)
        definitions d in
    let (i, j) = IsDue-iff selected tags d in
    (
      λ h. let (m, c) = a (s h) in let (n, k) = u m in (n, i (k, c)),
      λ h. let (k, c) = j h.1 in t (b (v (h.0, k), c)),
    )

-- what the snapshot shows of a definition
abbrev pub shown : ChargeLineDefinitionDto → ResolvedChargeLine
shown d = record {
  definition_key = d.key;
  role = d.role;
  input_type = d.input_type;
  zone = d.zone;
  label = d.label;
}

-- Each definition is at most all that follow, by the catalogue's sort order.
abbrev pub IsOrdered : List ChargeLineDefinitionDto → Type 0
IsOrdered [] = Unit
IsOrdered (d ∷ ds) = All (λ e. d.sort_order ≤ e.sort_order) ds × IsOrdered ds

low_first :
    (d : ChargeLineDefinitionDto) (ds : List ChargeLineDefinitionDto)
    → All (λ e. by_sort_order d e ≡ true) ds
    → All (λ e. d.sort_order ≤ e.sort_order) ds
low_first d [] h = tt
low_first d (e ∷ es) h = (ground (arith, h.0), low_first d es h.1)

IsSorted-IsOrdered : (ds : List ChargeLineDefinitionDto) → IsSorted by_sort_order ds → IsOrdered ds
IsSorted-IsOrdered [] s = tt
IsSorted-IsOrdered (d ∷ ds) s = (low_first d ds s.0, IsSorted-IsOrdered ds s.1)

-- The lines of the configuration are those of a list of definitions in ascending sort order, which
-- holds exactly the active definitions of either input type whose role lets them in: core ones always,
-- standard ones if they are selected, tag-driven ones if they are selected and a package carries
-- their tag.
pub resolve_charge_config_iff :
    (definitions : List ChargeLineDefinitionDto) (selected : List String) (included : Bool)
    (tags : List String)
    → (ds : List ChargeLineDefinitionDto) × ((resolve_charge_config definitions selected included
          tags).lines
        ≡ map shown ds)
      × ((d : ChargeLineDefinitionDto) → In d ds ↔ (In d definitions × IsDue selected tags d))
      × IsOrdered ds
unfolding resolve_charge_config chosen
resolve_charge_config_iff definitions selected included tags = (
  chosen definitions selected tags,
  refl,
  chosen-In definitions selected tags,
  IsSorted-IsOrdered _
      (sort_by-IsSorted by_sort_order (λ x y. ground arith) (λ x y z p q. ground arith) _),
)
