-- ===== src/Quote/Draft.antt =====
-- packages/shared/src/quote.ts: a draft of a quote, its freight variants and the keys of its transit
-- times. The fields that neither the totals nor the gate reads are left out (zones, trucking bases,
-- container sizes, notes). `N` is the type of the platform's numbers.
use logistics.Common.{
  Bool, true, Option, none, some, List, [], ◌∷◌, String, ◌==◌, string_eq, ℕ, Eq, code_beq,
  code_beq_iff, ◌≡◌, zero, suc, arith, nat_eq, includes, ◌&&◌,
}
use logistics.Common.Dict.{Dict}
use Prim.Native.Char.{code}

pub data FreightMode : Type 0 where
  road air sea : FreightMode

pub data ChargeRateVariant : Type 0 where
  dedicated groupage fcl lcl : ChargeRateVariant

abbrev pub variant_code : ChargeRateVariant → ℕ
variant_code dedicated = 0
variant_code groupage = 1
variant_code fcl = 2
variant_code lcl = 3

pub variant_of : ℕ → Option ChargeRateVariant
variant_of zero = some dedicated
variant_of (suc zero) = some groupage
variant_of (suc (suc zero)) = some fcl
variant_of (suc (suc (suc zero))) = some lcl
variant_of (suc (suc (suc (suc n)))) = none

pub variant_of-code : (v : ChargeRateVariant) → variant_of (variant_code v) ≡ some v
unfolding variant_of
variant_of-code v = ground arith

instance abbrev pub variant_eq : Eq ChargeRateVariant
variant_eq = record {
  same = code_beq variant_code;
  same_iff = code_beq_iff variant_code variant_of variant_of-code;
}

-- rateVariantLabel
abbrev pub rate_variant_label : ChargeRateVariant → String
rate_variant_label dedicated = "Dedicated"
rate_variant_label groupage = "Groupage"
rate_variant_label fcl = "FCL"
rate_variant_label lcl = "LCL"

-- the members of the enumeration are their own names
abbrev pub variant_name : ChargeRateVariant → String
variant_name dedicated = "DEDICATED"
variant_name groupage = "GROUPAGE"
variant_name fcl = "FCL"
variant_name lcl = "LCL"

abbrev pub air_variant_key : String
air_variant_key = "AIR"

abbrev pub sea_variant_key : String
sea_variant_key = "SEA"

-- `none` is the one implicit column
abbrev pub variants_for_mode : Option FreightMode → List (Option ChargeRateVariant)
variants_for_mode (some road) = some dedicated ∷ some groupage ∷ []
variants_for_mode (some sea) = some fcl ∷ some lcl ∷ []
variants_for_mode (some air) = none ∷ []
variants_for_mode none = none ∷ []

-- A transit key is the name of a variant, or one of the two common ones.
abbrev pub variants_for_transit : Option FreightMode → List String
variants_for_transit (some road) = variant_name dedicated ∷ variant_name groupage ∷ []
variants_for_transit (some sea) = sea_variant_key ∷ []
variants_for_transit (some air) = air_variant_key ∷ []
variants_for_transit none = air_variant_key ∷ []

-- what the program uses of the platform's numbers
pub record Number (N : Type 0) : Type 0 where
  pub zero_ : N
  pub add : N → N → N
  pub sub : N → N → N
  pub mul : N → N → N
  pub max : N → N → N
  pub less : N → N → Bool
  pub is_zero : N → Bool
  pub print : N → String

module _ (N : Type 0) where
  pub record QuoteDraftCargo : Type 0 where
    pub gross_wt_kg : N

  pub record QuoteDraftCharge : Type 0 where
    pub definition_key : Option String
    pub preset_key : Option String
    pub label : String
    pub amount : Option N
    pub note : Option String
    pub piece_weight_kg : Option N
    pub airline_limit_kg : Option N
    pub rate_per_excess_kg : Option N

  pub record QuoteDraftTrucking : Type 0 where
    pub rate_variant : ChargeRateVariant
    pub amount : Option N

  pub record QuoteDraftSeaRate : Type 0 where
    pub rate_variant : ChargeRateVariant
    pub amount : Option N

  pub record QuoteDraftWarehouse : Type 0 where
    pub warehouse_point_id : String
    pub label : String
    pub amount : Option N
    pub cargo_acceptance_window : Option String

  pub record QuoteDraftTransit : Type 0 where
    pub departure_date : Option String
    pub arrival_date : Option String
    pub planned_pickup_date : Option String
    pub planned_departure : Option String
    pub planned_arrival : Option String
    pub etd : Option String
    pub eta : Option String
    pub guaranteed_transit_days : Dict N

  pub record QuoteDraft : Type 0 where
    pub leg_id : String
    pub mode : Option FreightMode
    pub currency : Option String
    pub quote_validity_until : Option String
    pub charged_weight_kg : Option N
    pub cargo : List QuoteDraftCargo
    pub charges : List QuoteDraftCharge
    pub trucking : List QuoteDraftTrucking
    pub sea_rates : List QuoteDraftSeaRate
    pub warehouse : List QuoteDraftWarehouse
    pub transit : Option QuoteDraftTransit

-- `!value` of a string that may be absent
abbrev pub is_falsy : Option String → Bool
is_falsy none = true
is_falsy (some s) = s == ""

-- the code points that `trim` takes for white space
abbrev white_space : List ℕ
white_space =
    9 ∷ 10 ∷ 11 ∷ 12 ∷ 13 ∷ 32 ∷ 160 ∷ 5760 ∷ 8192 ∷ 8193 ∷ 8194 ∷ 8195 ∷ 8196 ∷ 8197 ∷ 8198 ∷ 8199
    ∷ 8200 ∷ 8201 ∷ 8202 ∷ 8232 ∷ 8233 ∷ 8239 ∷ 8287 ∷ 12288 ∷ 65279 ∷ []

is_white : String → Bool
is_white String.[] = true
is_white (String.◌∷◌ c s) = includes white_space (code c) && is_white s

-- `!note?.trim()`
unfoldable pub is_blank : Option String → Bool
unfolding is_white
is_blank none = true
is_blank (some s) = is_white s
