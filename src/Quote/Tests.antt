-- ===== src/Quote/Tests.antt =====
-- Runs of the quote component at concrete inputs, and its theorems applied at them.
use logistics.Common.{
  ℕ, ◌+◌, ◌-◌, ◌*◌, ◌≡◌, refl, ◌↔◌, true, Option, none, some, List, [], ◌∷◌, String, arith, In, map,
  ltb, ◌==◌, string_eq, nat_eq, if◌then◌else◌, IsDistinct,
}
use logistics.Common.Dict
use logistics.Common.Sort.{sort_by}
use logistics.Findings.{Finding, finding_key, dedupe_findings}
use logistics.Findings.Dedupe.{dedupe_findings-IsDistinct}
use logistics.Quote.Draft.{road, groupage, Number, QuoteDraftCharge, QuoteDraft, is_blank}
use logistics.Quote.Totals.{
  compute_quote_totals, is_variant_priced, variant_rate, effective_charge_amount,
  compute_heavy_weight_amount,
}
use logistics.Quote.Charges.{
  ChargeLineRole, core, standard, tag_driven, plain, origin, ChargeLineDefinitionDto,
  ResolvedChargeLine, line_of, chosen, resolve_charge_config,
}
use logistics.Quote.Charges.Gates.{shown, IsOrdered, IsDue, resolve_charge_config_iff}
use logistics.Quote.Rules.{Clock, blk, leg_scope}
use logistics.Quote.Gate.{validate_quote}
use logistics.Quote.Gate.Submittable.{Submittable, validate_quote-Submittable}
use logistics.Quote.Recommend.{
  urgent, RecommendOffer, Rankable, RecommendResult, rankable, recommend_offer, compare_offers,
}
use logistics.Quote.Recommend.Comparisons.{IsStrictWeak}
use logistics.Quote.Recommend.Offered.{IsOffered}
use logistics.Quote.Recommend.Best.{IsNotAhead, first_figure, second_figure, recommend_offer-IsBest}

abbrev num : Number ℕ
num = record {
  zero_ = 0;
  add = λ a b. a + b;
  sub = λ a b. a - b;
  mul = λ a b. a * b;
  max = λ a b. if ltb a b then b else a;
  less = ltb;
  is_zero = λ a. a == 0;
  print = λ a. "n";
}

-- a calendar of three days
abbrev clock : Clock
clock = record {
  Time = ℕ;
  time_of = λ s.
      if s == "2026-07-01"
      then some 1
      else if s == "2026-07-02"
      then some 2
      else if s == "2026-07-03"
      then some 3
      else none;
  earlier = ltb;
}

abbrev charge : Option ℕ → QuoteDraftCharge ℕ
charge amount = record {
  definition_key = some "PICKUP";
  preset_key = none;
  label = "Pickup";
  amount = amount;
  note = some " ";
  piece_weight_kg = none;
  airline_limit_kg = none;
  rate_per_excess_kg = none;
}

abbrev draft : Option ℕ → QuoteDraft ℕ
draft amount = record {
  leg_id = "leg-a";
  mode = some road;
  currency = some "EUR";
  quote_validity_until = some "2026-07-03";
  charged_weight_kg = some 100;
  cargo = record { gross_wt_kg = 80 } ∷ [];
  charges = charge amount ∷ [];
  trucking = record { rate_variant = groupage; amount = some 900 } ∷ [];
  sea_rates = [];
  warehouse = [];
  transit = some (record {
    departure_date = some "2026-07-02";
    arrival_date = none;
    planned_pickup_date = none;
    planned_departure = none;
    planned_arrival = none;
    etd = none;
    eta = none;
    guaranteed_transit_days = record { entries = ("GROUPAGE", 4) ∷ [] };
  });
}

abbrev lines : List ResolvedChargeLine
lines =
    record {
      definition_key = "PICKUP";
      role = core;
      input_type = plain;
      zone = none;
      label = "Pickup";
    }
    ∷ []

submittable_run : validate_quote num clock (draft (some 50)) "2026-07-02" "2026-07-01" lines ≡ []
unfolding validate_quote is_variant_priced variant_rate is_blank Dict.get
submittable_run = refl

-- an amount of zero with a blank remark
zero_run :
    validate_quote num clock (draft (some 0)) "2026-07-02" "2026-07-01" lines
    ≡ blk "Q_PRICED" "A remark is required to quote \"Pickup\" at 0" (leg_scope "leg-a") ∷ []
unfolding validate_quote is_variant_priced variant_rate is_blank Dict.get
zero_run = refl

validate_quote-Submittable_example :
    (validate_quote num clock (draft (some 50)) "2026-07-02" "2026-07-01" lines ≡ [])
    ↔ Submittable num clock (draft (some 50)) "2026-07-02" "2026-07-01" lines
validate_quote-Submittable_example =
    validate_quote-Submittable num clock (draft (some 50)) "2026-07-02" "2026-07-01" lines

totals_run :
    (compute_quote_totals num (draft (some 50))).variants
    ≡ record { key = "DEDICATED"; rate_amount = none; grand_total = 50 }
      ∷ record { key = "GROUPAGE"; rate_amount = some 900; grand_total = 950 }
      ∷ []
unfolding compute_quote_totals variant_rate effective_charge_amount compute_heavy_weight_amount
totals_run = refl

abbrev line : String → ChargeLineRole → Option String → ℕ → ChargeLineDefinitionDto
line key role tag order = record {
  id = key;
  key = key;
  mode = road;
  role = role;
  input_type = plain;
  zone = some origin;
  tag_key = tag;
  label = key;
  sort_order = order;
  is_active = true;
}

abbrev catalogue : List ChargeLineDefinitionDto
catalogue =
    line "DOC" standard none 2 ∷ line "PICKUP" core none 1 ∷ line "DG" tag_driven (some "DG") 3 ∷ []

-- The tag-driven line is selected, and no package carries its tag.
resolve_run :
    (resolve_charge_config catalogue ("DOC" ∷ "DG" ∷ []) true []).lines
    ≡ line_of (line "PICKUP" core none 1) ∷ line_of (line "DOC" standard none 2) ∷ []
unfolding resolve_charge_config chosen sort_by
resolve_run = refl

abbrev configured : List ResolvedChargeLine
configured = (resolve_charge_config catalogue ("DOC" ∷ "DG" ∷ []) true []).lines

resolve_charge_config_iff_example :
    (ds : List ChargeLineDefinitionDto) × (configured ≡ map shown ds)
    × ((d : ChargeLineDefinitionDto) → In d ds ↔ (In d catalogue × IsDue ("DOC" ∷ "DG" ∷ []) [] d))
    × IsOrdered ds
resolve_charge_config_iff_example = resolve_charge_config_iff catalogue ("DOC" ∷ "DG" ∷ []) true []

abbrev offers : List (RecommendOffer ℕ)
offers =
    record {
      quote_id = "slow";
      variant = none;
      usd_total = some 100;
      transit_days = some 9;
      submitted_at = "2026-07-01";
    }
    ∷ record {
      quote_id = "unpriced";
      variant = none;
      usd_total = none;
      transit_days = some 1;
      submitted_at = "2026-07-01";
    }
    ∷ record {
      quote_id = "fast";
      variant = none;
      usd_total = some 300;
      transit_days = some 4;
      submitted_at = "2026-07-02";
    }
    ∷ []

abbrev fast : RecommendResult
fast = record { quote_id = "fast"; variant = none }

ltb-IsStrictWeak : IsStrictWeak ltb
ltb-IsStrictWeak = record { asym = λ x y. ground arith; cotrans = λ x y z. ground arith }

urgent_run : recommend_offer ltb urgent offers ≡ some fast
unfolding recommend_offer rankable compare_offers sort_by
urgent_run = refl

recommend_offer-IsBest_example :
    (best : Rankable ℕ) × IsOffered offers best
    × (fast ≡ record { quote_id = best.quote_id; variant = best.variant })
    × ((o : Rankable ℕ)
        → IsOffered offers o
        → IsNotAhead ltb (first_figure ltb urgent) (second_figure ltb urgent) best o)
recommend_offer-IsBest_example =
    recommend_offer-IsBest ltb ltb-IsStrictWeak urgent offers fast urgent_run

abbrev late : Finding
late = blk "Q_DEADLINE" "The submission deadline has passed" (leg_scope "leg-a")

dedupe_run : dedupe_findings (late ∷ late ∷ []) ≡ late ∷ []
unfolding dedupe_findings finding_key
dedupe_run = refl

dedupe_findings-IsDistinct_example :
    ((f : Finding) → In f (dedupe_findings (late ∷ late ∷ [])) → In f (late ∷ late ∷ []))
    × IsDistinct (map finding_key (dedupe_findings (late ∷ late ∷ [])))
    × ((k : String)
        → In k (map finding_key (late ∷ late ∷ []))
        → In k (map finding_key (dedupe_findings (late ∷ late ∷ []))))
dedupe_findings-IsDistinct_example = dedupe_findings-IsDistinct (late ∷ late ∷ [])
