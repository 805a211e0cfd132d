-- ===== src/Quote/Totals.antt =====
-- The totals of packages/shared/src/quote-engine.ts, one for each freight variant of the mode.
use logistics.Common.{
  Bool, true, false, ◌&&◌, Option, none, some, List, [], ◌∷◌, map, String, ◌==◌, find?, any,
  is_some,
}
use logistics.Quote.Draft.{
  road, air, sea, ChargeRateVariant, variant_eq, variant_name, air_variant_key, variants_for_mode,
  Number, QuoteDraftCharge, QuoteDraft,
}

pub record QuoteVariantTotal (N : Type 0) : Type 0 where
  pub key : String
  pub rate_amount : Option N
  pub grand_total : N

pub record QuoteTotals (N : Type 0) : Type 0 where
  pub variants : List (QuoteVariantTotal N)
  pub additional_charge_sum : N
  pub warehouse_sum : N
  pub chargeable_weight_kg : N

-- the row of the variant, `find(…)?.amount ?? null`
abbrev pub amount_of : {A N : Type 0} → (A → Option N) → Option A → Option N
amount_of amount none = none
amount_of amount (some a) = amount a

-- `v ?? AIR_VARIANT_KEY`
abbrev pub key_of : Option ChargeRateVariant → String
key_of none = air_variant_key
key_of (some v) = variant_name v

-- A row's variant is `v`; no row has the implicit one.
abbrev pub is_variant : Option ChargeRateVariant → ChargeRateVariant → Bool
is_variant none w = false
is_variant (some v) w = w == v

module _ {N : Type 0} where
  unfoldable pub variant_rate : QuoteDraft N → Option ChargeRateVariant → Option N
  variant_rate draft v = elim draft.mode [
    | none ↦ none
    | some m ↦ elim m [
      | road ↦ amount_of (λ t. t.amount) (find? (λ t. is_variant v t.rate_variant) draft.trucking)
      | sea ↦ amount_of (λ r. r.amount) (find? (λ r. is_variant v r.rate_variant) draft.sea_rates)
      | air ↦ none
    ]
  ]

  -- a charge carries a usable amount
  abbrev pub charge_cell_priced : QuoteDraftCharge N → Bool
  charge_cell_priced c = elim (is_some c.amount) [
    | true ↦ true
    | false ↦
        is_some c.piece_weight_kg && is_some c.airline_limit_kg && is_some c.rate_per_excess_kg
  ]

  unfoldable pub is_variant_priced : QuoteDraft N → Option ChargeRateVariant → Bool
  is_variant_priced draft v = elim draft.mode [
    | none ↦ any charge_cell_priced draft.charges
    | some m ↦ elim m [
      | road ↦ is_some (variant_rate draft v)
      | sea ↦ is_some (variant_rate draft v)
      | air ↦ any charge_cell_priced draft.charges
    ]
  ]

module _ {N : Type 0} (num : Number N) where
  unfoldable pub compute_heavy_weight_amount : N → N → N → N
  compute_heavy_weight_amount piece_weight_kg airline_limit_kg rate_per_excess_kg =
      num.mul (num.max num.zero_ (num.sub piece_weight_kg airline_limit_kg)) rate_per_excess_kg

  abbrev pub or_zero : Option N → N
  or_zero none = num.zero_
  or_zero (some a) = a

  -- the three inputs, or else the literal amount
  unfoldable pub heavy_or : Option N → Option N → Option N → Option N → N
  unfolding compute_heavy_weight_amount
  heavy_or (some p) (some l) (some r) amount = compute_heavy_weight_amount p l r
  heavy_or _ _ _ amount = or_zero amount

  unfoldable pub effective_charge_amount : QuoteDraftCharge N → N
  unfolding heavy_or
  effective_charge_amount c =
      heavy_or c.piece_weight_kg c.airline_limit_kg c.rate_per_excess_kg c.amount

  -- `reduce((s, x) => s + f(x), 0)`
  unfoldable pub sum_from : {A : Type 0} → (A → N) → N → List A → N
  sum_from f s [] = s
  sum_from f s (x ∷ xs) = sum_from f (num.add s (f x)) xs

  abbrev pub total_of : QuoteDraft N → N → N → Option ChargeRateVariant → QuoteVariantTotal N
  total_of draft additional_charge_sum warehouse_sum v =
      let rate_amount = variant_rate draft v in
      record {
        key = key_of v;
        rate_amount = rate_amount;
        grand_total = num.add (num.add (or_zero rate_amount) additional_charge_sum) warehouse_sum;
      }

  unfoldable pub compute_quote_totals : QuoteDraft N → QuoteTotals N
  unfolding sum_from
  compute_quote_totals draft =
      let warehouse_sum = sum_from (λ w. or_zero w.amount) num.zero_ draft.warehouse in
      let additional_charge_sum = sum_from effective_charge_amount num.zero_ draft.charges in
      record {
        variants =
            map (total_of draft additional_charge_sum warehouse_sum) (variants_for_mode draft.mode);
        additional_charge_sum = additional_charge_sum;
        warehouse_sum = warehouse_sum;
        chargeable_weight_kg = or_zero draft.charged_weight_kg;
      }
