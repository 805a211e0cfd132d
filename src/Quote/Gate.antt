-- ===== src/Quote/Gate.antt =====
-- The submission gate of packages/shared/src/quote-engine.ts: the rules on the configured lines and on
-- the weight of the pieces, and `validateQuote`, which goes through all rules in its order.
pub mod Priced
pub mod Rows
pub mod Submittable
use Prim.Native.String.{◌++◌ as str_append}
use logistics.Common.{
  Bool, true, false, ◌&&◌, ◌||◌, not, Option, none, some, List, [], ◌∷◌, ◌++◌, String, ◌==◌,
  string_eq, filter, find?, is_some, is_nil, if◌then◌else◌, map,
}
use logistics.Common.Dict
use logistics.Findings.{Finding, FindingScope, blocking}
use logistics.Quote.Draft.{
  FreightMode, road, ChargeRateVariant, rate_variant_label, variants_for_mode, variant_name,
  variants_for_transit, Number, QuoteDraftCharge, QuoteDraftWarehouse, QuoteDraftTransit,
  QuoteDraft, is_falsy, is_blank,
}
use logistics.Quote.Charges.{plain, heavy_weight_calc, ResolvedChargeLine}
use logistics.Quote.Totals.{is_variant_priced, sum_from}
use logistics.Quote.Rules.{
  Clock, blk, field_scope, leg_scope, when, in_quotes, is_key, name_of, joined, each,
  transit_suffix, is_leg_started, required_transit_keys, currency_rule, weight_rule, rate_rule,
  transit_rule, custom_rule, warehouse_rule, transit_dates, window_of, deadline_rule, validity_rule,
  past_date_rule,
}

abbrev pub heavy_finding : String → String → Finding
heavy_finding leg_id label =
    blk "Q_PRICED" (str_append "Heavy-Weight inputs are required for " (in_quotes label))
      (leg_scope leg_id)

abbrev pub unpriced_finding : String → String → Finding
unpriced_finding leg_id label =
    blk "Q_PRICED" (str_append "Charge line " (str_append (in_quotes label) " must be priced"))
      (leg_scope leg_id)

abbrev pub zero_finding : String → String → Finding
zero_finding leg_id label =
    blk "Q_PRICED"
      (str_append "A remark is required to quote " (str_append (in_quotes label) " at 0"))
      (leg_scope leg_id)

module _ {N : Type 0} (num : Number N) where
  abbrev pub is_zero_amount : Option N → Bool
  is_zero_amount none = false
  is_zero_amount (some a) = num.is_zero a

  -- what is missing of the charge that answers a line
  abbrev pub line_rule :
      QuoteDraft N → ResolvedChargeLine → Option (QuoteDraftCharge N) → List Finding
  line_rule draft line found = elim line.input_type [
    | heavy_weight_calc ↦ elim found [
      | none ↦ heavy_finding draft.leg_id line.label ∷ []
      | some c ↦
          when
            (not (
              is_some c.piece_weight_kg
              && is_some c.airline_limit_kg
              && is_some c.rate_per_excess_kg))
            (heavy_finding draft.leg_id line.label)
    ]
    | plain ↦ elim found [
      | none ↦ unpriced_finding draft.leg_id line.label ∷ []
      | some c ↦
          if not (is_some c.amount)
          then unpriced_finding draft.leg_id line.label ∷ []
          else when (is_zero_amount c.amount && is_blank c.note)
              (zero_finding draft.leg_id line.label)
    ]
    | _ ↦ []
  ]

  -- the charge with the line's key
  abbrev pub charge_of : QuoteDraft N → ResolvedChargeLine → Option (QuoteDraftCharge N)
  charge_of draft line = find? (λ c. is_key c.definition_key line.definition_key) draft.charges

  -- Q_PRICED of the configured lines, once the leg is started
  abbrev pub lines_rule : QuoteDraft N → List ResolvedChargeLine → List Finding
  lines_rule draft lines =
      if is_leg_started draft then each (λ l. line_rule draft l (charge_of draft l)) lines else []

  unfoldable pub total_gross_wt_kg : QuoteDraft N → N
  unfolding sum_from
  total_gross_wt_kg draft = sum_from num (λ c. c.gross_wt_kg) num.zero_ draft.cargo

  -- Q_PIECE_WEIGHT
  abbrev pub piece_rule : N → Option N → QuoteDraftCharge N → List Finding
  piece_rule total none c = []
  piece_rule total (some w) c = when (num.less total w) (
      blk "Q_PIECE_WEIGHT"
        (str_append "Piece weight (" (
          str_append (num.print w) (
            str_append " kg) for " (
              str_append (in_quotes c.label) (
                str_append " cannot exceed the cargo's total gross weight ("
                  (str_append (num.print total) " kg)"))))))
        (field_scope (str_append "pieceWeightKg:" (name_of c.definition_key c.label))))

  unfoldable pub validate_quote :
      Clock → QuoteDraft N → String → String → List ResolvedChargeLine → List Finding
  validate_quote clock draft deadline_iso now_iso active_lines = joined (
      deadline_rule clock draft deadline_iso now_iso
      ∷ currency_rule draft
      ∷ validity_rule clock draft.quote_validity_until deadline_iso
      ∷ weight_rule draft
      ∷ rate_rule draft
      ∷ lines_rule draft active_lines
      ∷ each (transit_rule draft (transit_suffix draft.mode)) (required_transit_keys draft)
      ∷ each (custom_rule draft) draft.charges
      ∷ each (warehouse_rule draft) draft.warehouse
      ∷ each (past_date_rule clock now_iso) (transit_dates draft.transit)
      ∷ each (past_date_rule clock now_iso) (map window_of draft.warehouse)
      ∷ each (λ c. piece_rule (total_gross_wt_kg draft) c.piece_weight_kg c) draft.charges
      ∷ [])
