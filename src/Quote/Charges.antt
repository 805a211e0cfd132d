-- ===== src/Quote/Charges.antt =====
-- packages/shared/src/charge-config.ts: the charge lines that are frozen onto a quote when a leg is
-- distributed.
pub mod Gates
use logistics.Common.{
  ℕ, Bool, true, false, ◌&&◌, ◌||◌, Option, none, some, List, [], ◌∷◌, map, String, filter,
  includes, string_eq, leb,
}
use logistics.Common.Sort.{sort_by}
use logistics.Quote.Draft.{FreightMode}

pub data ChargeZone : Type 0 where
  origin main_freight destination : ChargeZone

pub data ChargeLineRole : Type 0 where
  core standard tag_driven warehouse : ChargeLineRole

pub data ChargeLineInputType : Type 0 where
  plain trucking warehouse_staging heavy_weight_calc : ChargeLineInputType

-- a row of the catalogue
pub record ChargeLineDefinitionDto : Type 0 where
  pub id : String
  pub key : String
  pub mode : FreightMode
  pub role : ChargeLineRole
  pub input_type : ChargeLineInputType
  pub zone : Option ChargeZone
  pub tag_key : Option String
  pub label : String
  pub sort_order : ℕ
  pub is_active : Bool

pub record ResolvedChargeLine : Type 0 where
  pub definition_key : String
  pub role : ChargeLineRole
  pub input_type : ChargeLineInputType
  pub zone : Option ChargeZone
  pub label : String

pub record ChargeConfigSnapshot : Type 0 where
  pub lines : List ResolvedChargeLine
  pub warehouse_included : Bool

-- `PLAIN` and `HEAVY_WEIGHT_CALC`
abbrev pub is_line : ChargeLineInputType → Bool
is_line plain = true
is_line heavy_weight_calc = true
is_line _ = false

-- `d.tagKey != null && tagSet.has(d.tagKey)`
abbrev pub has_tag : List String → Option String → Bool
has_tag tags none = false
has_tag tags (some tag) = includes tags tag

-- the gate of a role
abbrev pub is_chosen : List String → List String → ChargeLineDefinitionDto → Bool
is_chosen selected tags d = elim d.role [
  | core ↦ true
  | standard ↦ includes selected d.key
  | tag_driven ↦ includes selected d.key && has_tag tags d.tag_key
  | warehouse ↦ false
]

abbrev pub line_of : ChargeLineDefinitionDto → ResolvedChargeLine
line_of d = record {
  definition_key = d.key;
  role = d.role;
  input_type = d.input_type;
  zone = d.zone;
  label = d.label;
}

abbrev pub by_sort_order : ChargeLineDefinitionDto → ChargeLineDefinitionDto → Bool
by_sort_order a b = leb a.sort_order b.sort_order

-- the definitions that pass both filters, in order
unfoldable pub chosen :
    List ChargeLineDefinitionDto → List String → List String → List ChargeLineDefinitionDto
chosen definitions selected_keys package_tags = sort_by by_sort_order (
    filter (is_chosen selected_keys package_tags)
      (filter (λ d. d.is_active && is_line d.input_type) definitions))

unfoldable pub resolve_charge_config :
    List ChargeLineDefinitionDto → List String → Bool → List String → ChargeConfigSnapshot
resolve_charge_config definitions selected_keys warehouse_included package_tags = record {
  lines = map line_of (chosen definitions selected_keys package_tags);
  warehouse_included = warehouse_included;
}
