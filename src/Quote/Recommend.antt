-- ===== src/Quote/Recommend.antt =====
-- packages/shared/src/recommend.ts: the offer that is recommended for a leg. `less` is the order of
-- the platform's numbers.
pub mod Comparisons
pub mod Offered
pub mod Best
use Prim.Native.Char.{code}
use Prim.Native.Nat.{Ordering}
use Prim.Native.String
use logistics.Common.{
  Bool, true, false, ◌&&◌, ◌||◌, not, Option, none, some, List, [], ◌∷◌, String, ltb, if◌then◌else◌,
}
use logistics.Common.Sort.{sort_by}
use logistics.Quote.Draft.{
  FreightMode, road, sea, ChargeRateVariant, variant_name, air_variant_key, sea_variant_key,
}

pub data Priority : Type 0 where
  low medium high urgent : Priority

-- `variant ?? AIR_VARIANT_KEY`
abbrev pub transit_key_for_variant : Option FreightMode → Option ChargeRateVariant → String
transit_key_for_variant (some road) none = air_variant_key
transit_key_for_variant (some road) (some v) = variant_name v
transit_key_for_variant (some sea) variant = sea_variant_key
transit_key_for_variant _ variant = air_variant_key

module _ (N : Type 0) where
  pub record RecommendOffer : Type 0 where
    pub quote_id : String
    pub variant : Option ChargeRateVariant
    pub usd_total : Option N
    pub transit_days : Option N
    pub submitted_at : String

  -- an offer that has both figures
  pub record Rankable : Type 0 where
    pub quote_id : String
    pub variant : Option ChargeRateVariant
    pub usd_total : N
    pub transit_days : N
    pub submitted_at : String

pub record RecommendResult : Type 0 where
  pub quote_id : String
  pub variant : Option ChargeRateVariant

-- `<` on strings, character by character
pub str_less : String → String → Bool
str_less String.[] String.[] = false
str_less String.[] (String.◌∷◌ d t) = true
str_less (String.◌∷◌ c s) String.[] = false
str_less (String.◌∷◌ c s) (String.◌∷◌ d t) = elim (ltb (code c) (code d)) [
  | true ↦ true
  | false ↦ not (ltb (code d) (code c)) && str_less s t
]

-- the sign of a difference
abbrev pub sign : {A : Type 0} → (A → A → Bool) → A → A → Ordering
sign less a b = if less a b then Ordering.lt else if less b a then Ordering.gt else Ordering.eq

-- `x || y` of two signs
abbrev pub or_then : Ordering → Ordering → Ordering
or_then Ordering.lt other = Ordering.lt
or_then Ordering.gt other = Ordering.gt
or_then Ordering.eq other = other

abbrev pub is_speed_first : Priority → Bool
is_speed_first high = true
is_speed_first urgent = true
is_speed_first medium = false
is_speed_first low = false

abbrev pub is_not_gt : Ordering → Bool
is_not_gt Ordering.gt = false
is_not_gt Ordering.lt = true
is_not_gt Ordering.eq = true

module _ {N : Type 0} where
  abbrev pub rank :
      String → Option ChargeRateVariant → String → Option N → Option N → List (Rankable N)
  rank quote_id variant submitted_at (some usd) (some days) =
      record {
        quote_id = quote_id;
        variant = variant;
        usd_total = usd;
        transit_days = days;
        submitted_at = submitted_at;
      }
      ∷ []
  rank quote_id variant submitted_at _ _ = []

  -- `offers.filter((o) => o.usdTotal != null && o.transitDays != null)`
  unfoldable pub rankable : List (RecommendOffer N) → List (Rankable N)
  rankable [] = []
  rankable (o ∷ os) = elim (rank o.quote_id o.variant o.submitted_at o.usd_total o.transit_days) [
    | [] ↦ rankable os
    | r ∷ _ ↦ r ∷ rankable os
  ]

  abbrev pub result_of : List (Rankable N) → Option RecommendResult
  result_of [] = none
  result_of (best ∷ rest) = some (record { quote_id = best.quote_id; variant = best.variant })

module _ {N : Type 0} (less : N → N → Bool) where
  -- the comparator of the sort
  unfoldable pub compare_offers : Bool → Rankable N → Rankable N → Ordering
  unfolding str_less
  compare_offers speed_first a b =
      let price = sign less a.usd_total b.usd_total in
      let transit = sign less a.transit_days b.transit_days in
      let submit = sign str_less a.submitted_at b.submitted_at in
      if speed_first
      then or_then transit (or_then price submit)
      else or_then price (or_then transit submit)

  unfoldable pub recommend_offer : Priority → List (RecommendOffer N) → Option RecommendResult
  recommend_offer priority offers =
      result_of (
        sort_by (λ a b. is_not_gt (compare_offers (is_speed_first priority) a b)) (rankable offers))
