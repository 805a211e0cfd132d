-- ===== src/Quote/Rules.antt =====
-- The rules of the submission gate of packages/shared/src/quote-engine.ts that look at one field, one
-- charge or one date of a draft. Dates are read by the platform: `clock` reads a date, or nothing
-- where it is not one, and tells an earlier time from a later one.
pub mod Meaning
use Prim.Native.String.{◌++◌ as str_append}
use logistics.Common.{
  Bool, true, false, ◌&&◌, ◌||◌, not, Option, none, some, List, [], ◌∷◌, ◌++◌, String, ◌==◌,
  string_eq, filter, find?, is_some, is_nil, if◌then◌else◌, map,
}
use logistics.Common.Dict
use logistics.Findings.{Finding, FindingScope, blocking}
use logistics.Quote.Draft.{
  FreightMode, road, ChargeRateVariant, rate_variant_label, variants_for_mode, variant_name,
  variants_for_transit, Number, QuoteDraftCharge, QuoteDraftWarehouse, QuoteDraftTransit,
  QuoteDraft, is_falsy, is_blank,
}
use logistics.Quote.Charges.{plain, heavy_weight_calc, ResolvedChargeLine}
use logistics.Quote.Totals.{is_variant_priced, sum_from}

-- what the program uses of the platform's dates
pub record Clock : Type 1 where
  pub Time : Type 0
  pub time_of : String → Option Time
  pub earlier : Time → Time → Bool

-- `a < b` of two readings, where a date that is not one compares as false
abbrev pub is_before : (clock : Clock) → Option clock.Time → Option clock.Time → Bool
is_before clock (some a) (some b) = clock.earlier a b
is_before clock (some a) none = false
is_before clock none b = false

abbrev pub blk : String → String → FindingScope → Finding
blk rule message scope = record {
  rule = rule;
  severity = blocking;
  scope = scope;
  message = message;
}

abbrev pub field_scope : String → FindingScope
field_scope id = record { type_ = "field"; id = some id }

abbrev pub leg_scope : String → FindingScope
leg_scope id = record { type_ = "leg"; id = some id }

-- one finding, if the test holds
abbrev pub when : Bool → Finding → List Finding
when b f = if b then f ∷ [] else []

abbrev pub in_quotes : String → String
in_quotes label = str_append "\"" (str_append label "\"")

-- `definitionKey === key`
abbrev pub is_key : Option String → String → Bool
is_key none key = false
is_key (some k) key = k == key

-- `definitionKey ?? label`
abbrev pub name_of : Option String → String → String
name_of none label = label
name_of (some k) label = k

-- several lists in a row
abbrev pub joined : {A : Type 0} → List (List A) → List A
joined [] = []
joined (p ∷ []) = p
joined (p ∷ q ∷ ps) = p ++ joined (q ∷ ps)

-- the rules of one value of a list after those of another
abbrev pub each : {A : Type 0} → (A → List Finding) → List A → List Finding
each rule [] = []
each rule (x ∷ xs) = rule x ++ each rule xs

-- ` (Dedicated)`, ` (Groupage)`, and nothing where the mode has one key
abbrev pub transit_suffix : Option FreightMode → String → String
transit_suffix (some road) key = str_append " (" (
    str_append
      (if key == "DEDICATED"
        then rate_variant_label ChargeRateVariant.dedicated
        else rate_variant_label ChargeRateVariant.groupage)
      ")")
transit_suffix _ key = ""

-- the variants that are not the implicit one
abbrev pub named_variants : List (Option ChargeRateVariant) → List String
named_variants [] = []
named_variants (none ∷ vs) = named_variants vs
named_variants (some v ∷ vs) = variant_name v ∷ named_variants vs

module _ {N : Type 0} where
  abbrev pub priced_variants : QuoteDraft N → List (Option ChargeRateVariant)
  priced_variants draft = filter (is_variant_priced draft) (variants_for_mode draft.mode)

  abbrev pub is_leg_started : QuoteDraft N → Bool
  is_leg_started draft = not (is_nil (priced_variants draft))

  abbrev pub required_transit_keys : QuoteDraft N → List String
  required_transit_keys draft = elim (is_leg_started draft) [
    | false ↦ []
    | true ↦ elim draft.mode [
      | some road ↦ named_variants (priced_variants draft)
      | m ↦ variants_for_transit m
    ]
  ]

  abbrev pub transit_days_at : Option (QuoteDraftTransit N) → String → Option N
  transit_days_at none key = none
  transit_days_at (some transit) key = Dict.get key transit.guaranteed_transit_days

  -- Q_CURRENCY and Q_WEIGHT
  abbrev pub currency_rule : QuoteDraft N → List Finding
  currency_rule draft =
      when (is_falsy draft.currency)
        (blk "Q_CURRENCY" "Currency is required" (field_scope "currency"))

  abbrev pub weight_rule : QuoteDraft N → List Finding
  weight_rule draft =
      when (not (is_some draft.charged_weight_kg))
        (blk "Q_WEIGHT" "Charged Weight (kg) is required" (field_scope "chargedWeightKg"))

  -- Q_RATE
  abbrev pub rate_rule : QuoteDraft N → List Finding
  rate_rule draft = when (not (is_leg_started draft)) (
      blk "Q_RATE" "Enter at least one rate or charge amount for this leg" (leg_scope draft.leg_id))

  -- Q_TRANSIT
  abbrev pub transit_rule : QuoteDraft N → (String → String) → String → List Finding
  transit_rule draft suffix key = when (not (is_some (transit_days_at draft.transit key))) (
      blk "Q_TRANSIT" (str_append "Guaranteed Transit Time is required" (suffix key))
        (field_scope "guaranteedTransitDays"))

  -- Q_CUSTOM_REMARK and Q_CUSTOM_AMOUNT
  abbrev pub custom_rule : QuoteDraft N → QuoteDraftCharge N → List Finding
  custom_rule draft c =
      if is_falsy c.definition_key && is_falsy c.preset_key
      then when (is_blank c.note) (
          blk "Q_CUSTOM_REMARK"
            (str_append "A remark is required on the custom charge " (in_quotes c.label))
            (leg_scope draft.leg_id))
        ++ when (not (is_some c.amount)) (
            blk "Q_CUSTOM_AMOUNT"
              (str_append "An amount is required on the custom charge " (in_quotes c.label))
              (leg_scope draft.leg_id))
      else []

  -- the warehouse's part of Q_PRICED
  abbrev pub warehouse_rule : QuoteDraft N → QuoteDraftWarehouse N → List Finding
  warehouse_rule draft w = when (not (is_some w.amount)) (
      blk "Q_PRICED" (str_append "Warehousing must be priced for " w.label)
        (leg_scope draft.leg_id))

  -- the dates of the transit plan, with the field's id and label
  abbrev pub transit_dates : Option (QuoteDraftTransit N) → List (Option String × String × String)
  transit_dates none = []
  transit_dates (some t) =
      (t.departure_date, "departureDate", "Departure Date")
      ∷ (t.arrival_date, "arrivalDate", "Arrival Date")
      ∷ (t.planned_pickup_date, "plannedPickupDate", "Planned Pickup Date")
      ∷ (t.planned_departure, "plannedDeparture", "Planned Departure")
      ∷ (t.planned_arrival, "plannedArrival", "Planned Arrival")
      ∷ (t.etd, "etd", "ETD")
      ∷ (t.eta, "eta", "ETA")
      ∷ []

  abbrev pub window_of : QuoteDraftWarehouse N → Option String × String × String
  window_of w = (
    w.cargo_acceptance_window,
    str_append "cargoAcceptanceWindow:" w.warehouse_point_id,
    "Cargo Acceptance Window",
  )

module _ (clock : Clock) where
  -- Q_DEADLINE
  abbrev pub deadline_rule : {N : Type 0} → QuoteDraft N → String → String → List Finding
  deadline_rule draft deadline_iso now_iso =
      when (is_before clock (clock.time_of deadline_iso) (clock.time_of now_iso))
        (blk "Q_DEADLINE" "The submission deadline has passed" (leg_scope draft.leg_id))

  -- Q_VALIDITY
  abbrev pub validity_rule : Option String → String → List Finding
  validity_rule none deadline_iso =
      blk "Q_VALIDITY" "Quote Validity Until is required" (field_scope "quoteValidityUntil") ∷ []
  validity_rule (some until) deadline_iso =
      if until == ""
      then blk "Q_VALIDITY" "Quote Validity Until is required" (field_scope "quoteValidityUntil")
        ∷ []
      else when (is_before clock (clock.time_of until) (clock.time_of deadline_iso)) (
          blk "Q_VALIDITY" "Quote Validity Until must be on or after the submission deadline"
            (field_scope "quoteValidityUntil"))

  -- Q_PAST_DATE
  abbrev pub past_date_rule : String → Option String × String × String → List Finding
  past_date_rule now_iso (none, id, label) = []
  past_date_rule now_iso (some value, id, label) =
      when (not (value == "") && is_before clock (clock.time_of value) (clock.time_of now_iso))
        (blk "Q_PAST_DATE" (str_append label " cannot be in the past") (field_scope id))
