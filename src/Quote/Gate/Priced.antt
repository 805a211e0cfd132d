-- ===== src/Quote/Gate/Priced.antt =====
-- When a draft of a quote counts as begun, and which transit times it then needs, read off the
-- draft's own rows (isVariantPriced, isLegStarted and requiredTransitKeys of quote-validators.ts).
use logistics.Common.{
  ◌≡◌, refl, sym, subst, ap, ◌∙◌, ◌≢◌, ◌↔◌, ◌⊎◌, inl, inr, Bool, true, Option, none, some, List, [],
  ◌∷◌, String, arith, All, Any, find?, is_some, any, ◌==◌, Bool-cases, string_eq,
}
use logistics.Common.Dict
use logistics.Quote.Draft.{
  FreightMode, road, air, sea, ChargeRateVariant, dedicated, groupage, fcl, lcl, variant_eq,
  QuoteDraftCharge, QuoteDraftTransit, QuoteDraft, variants_for_mode,
}
use logistics.Quote.Totals.{
  amount_of, is_variant, variant_rate, charge_cell_priced, is_variant_priced,
}
use logistics.Quote.Rules.{
  is_leg_started, required_transit_keys, transit_days_at, named_variants, priced_variants,
}

-- The first row of the variant has an amount.
abbrev pub IsPricedIn :
    {A N : Type 0} → (A → ChargeRateVariant) → (A → Option N) → ChargeRateVariant → List A → Type 0
IsPricedIn variant amount v [] = ⊥
IsPricedIn variant amount v (a ∷ rows) =
    ((variant a ≡ v) × (amount a ≢ none)) ⊎ ((variant a ≢ v) × IsPricedIn variant amount v rows)

is_some_iff : {A : Type 0} (o : Option A) → (is_some o ≡ true) ↔ (o ≢ none)
is_some_iff o = ground arith

find-IsPricedIn :
    {A N : Type 0} (variant : A → ChargeRateVariant) (amount : A → Option N) (v : ChargeRateVariant)
    (rows : List A)
    → (is_some (amount_of amount (find? (λ a. is_variant (some v) (variant a)) rows)) ≡ true)
      ↔ IsPricedIn variant amount v rows
find-IsPricedIn variant amount v [] = ground arith
find-IsPricedIn variant amount v (a ∷ rows) = elim (Bool-cases (variant a == v)) [
  | inl same ↦
      let e : variant a ≡ v = (variant_eq.same_iff (variant a) v).0 same in
      rw same (
        λ h. inl (e, (is_some_iff (amount a)).0 h),
        λ h. elim h [
          | inl (_, there) ↦ (is_some_iff (amount a)).1 there
          | inr (other, _) ↦ absurd (other e)
        ],
      )
  | inr differs ↦
      let (to, from) = find-IsPricedIn variant amount v rows in
      let other : variant a ≢ v =
        λ e. ground (arith, differs, variant_eq.same_iff (variant a) v, e) in
      rw differs (
        λ h. inr (other, to h),
        λ h. elim h [ inl (e, _) ↦ absurd (other e) | inr (_, later) ↦ from later ],
      )
]

either : {P A B C D : Type 0} → P ↔ (A ⊎ B) → A ↔ C → B ↔ D → P ↔ (C ⊎ D)
either p a c = (
  λ h. elim (p.0 h) [ inl x ↦ inl (a.0 x) | inr y ↦ inr (c.0 y) ],
  λ h. p.1 (elim h [ inl x ↦ inl (a.1 x) | inr y ↦ inr (c.1 y) ]),
)

module _ {N : Type 0} where
  -- an amount, or the three figures it is computed from
  abbrev pub IsCharged : QuoteDraftCharge N → Type 0
  IsCharged c =
      (c.amount ≢ none)
      ⊎ ((c.piece_weight_kg ≢ none) × (c.airline_limit_kg ≢ none) × (c.rate_per_excess_kg ≢ none))

  abbrev pub IsTrucked : ChargeRateVariant → QuoteDraft N → Type 0
  IsTrucked v draft = IsPricedIn (λ t. t.rate_variant) (λ t. t.amount) v draft.trucking

  abbrev pub IsShipped : ChargeRateVariant → QuoteDraft N → Type 0
  IsShipped v draft = IsPricedIn (λ r. r.rate_variant) (λ r. r.amount) v draft.sea_rates

  -- A price has been entered: a trucking rate by road, a rate of the sea table by sea, and a charge by
  -- air or where the mode is open.
  abbrev pub IsStarted : Option FreightMode → QuoteDraft N → Type 0
  IsStarted none draft = Any IsCharged draft.charges
  IsStarted (some road) draft = IsTrucked dedicated draft ⊎ IsTrucked groupage draft
  IsStarted (some air) draft = Any IsCharged draft.charges
  IsStarted (some sea) draft = IsShipped fcl draft ⊎ IsShipped lcl draft

  -- the transit time under this key is there
  abbrev pub HasDays : String → Option (QuoteDraftTransit N) → Type 0
  HasDays key none = ⊥
  HasDays key (some t) = Dict.get key t.guaranteed_transit_days ≢ none

  -- A transit time for each priced way of trucking by road, and for the whole mode otherwise.
  abbrev pub HasTransit : Option FreightMode → QuoteDraft N → Type 0
  HasTransit none draft = HasDays "AIR" draft.transit
  HasTransit (some road) draft =
      (IsTrucked dedicated draft → HasDays "DEDICATED" draft.transit)
      × (IsTrucked groupage draft → HasDays "GROUPAGE" draft.transit)
  HasTransit (some air) draft = HasDays "AIR" draft.transit
  HasTransit (some sea) draft = HasDays "SEA" draft.transit

  HasDays-iff :
      (key : String) (o : Option (QuoteDraftTransit N))
      → (transit_days_at o key ≢ none) ↔ HasDays key o
  HasDays-iff key none = ground arith
  HasDays-iff key (some t) = (λ h. h, λ h. h)

  charge_cell_priced_iff : (c : QuoteDraftCharge N) → (charge_cell_priced c ≡ true) ↔ IsCharged c
  charge_cell_priced_iff c = ground arith

  any-IsCharged :
      (cs : List (QuoteDraftCharge N)) → (any charge_cell_priced cs ≡ true) ↔ Any IsCharged cs
  any-IsCharged [] = ground arith
  any-IsCharged (c ∷ cs) = ground (arith, charge_cell_priced_iff c, any-IsCharged cs)

  road-rate :
      (draft : QuoteDraft N) (v : ChargeRateVariant)
      → draft.mode ≡ some road
      → is_variant_priced draft (some v)
        ≡ is_some (
            amount_of
              (λ t. t.amount)
              (find? (λ t. is_variant (some v) t.rate_variant) draft.trucking))
  unfolding is_variant_priced variant_rate
  road-rate draft v e = ground (arith, e)

  sea-rate :
      (draft : QuoteDraft N) (v : ChargeRateVariant)
      → draft.mode ≡ some sea
      → is_variant_priced draft (some v)
        ≡ is_some (
            amount_of
              (λ r. r.amount)
              (find? (λ r. is_variant (some v) r.rate_variant) draft.sea_rates))
  unfolding is_variant_priced variant_rate
  sea-rate draft v e = ground (arith, e)

  road-IsTrucked :
      (draft : QuoteDraft N) (v : ChargeRateVariant)
      → draft.mode ≡ some road
      → (is_variant_priced draft (some v) ≡ true) ↔ IsTrucked v draft
  road-IsTrucked draft v e =
      let (to, from) = find-IsPricedIn (λ t. t.rate_variant) (λ t. t.amount) v draft.trucking in
      (λ h. to (sym (road-rate draft v e) ∙ h), λ h. road-rate draft v e ∙ from h)

  sea-IsShipped :
      (draft : QuoteDraft N) (v : ChargeRateVariant)
      → draft.mode ≡ some sea
      → (is_variant_priced draft (some v) ≡ true) ↔ IsShipped v draft
  sea-IsShipped draft v e =
      let (to, from) = find-IsPricedIn (λ r. r.rate_variant) (λ r. r.amount) v draft.sea_rates in
      (λ h. to (sym (sea-rate draft v e) ∙ h), λ h. sea-rate draft v e ∙ from h)

  charge-IsCharged :
      (draft : QuoteDraft N)
      → ((draft.mode ≡ some air) ⊎ (draft.mode ≡ none))
      → (is_variant_priced draft none ≡ true) ↔ Any IsCharged draft.charges
  unfolding is_variant_priced
  charge-IsCharged draft e =
      let priced : is_variant_priced draft none ≡ any charge_cell_priced draft.charges =
        ground (arith, e) in
      let (to, from) = any-IsCharged draft.charges in
      (λ h. to (sym priced ∙ h), λ h. priced ∙ from h)

  two_columns :
      (draft : QuoteDraft N) (v w : Option ChargeRateVariant)
      → variants_for_mode draft.mode ≡ v ∷ w ∷ []
      → (is_leg_started draft ≡ true)
        ↔ ((is_variant_priced draft v ≡ true) ⊎ (is_variant_priced draft w ≡ true))
  two_columns draft v w e = ground (arith, e)

  one_column :
      (draft : QuoteDraft N) (v : Option ChargeRateVariant)
      → variants_for_mode draft.mode ≡ v ∷ []
      → (is_leg_started draft ≡ true) ↔ (is_variant_priced draft v ≡ true)
  one_column draft v e = ground (arith, e)

  abbrev OnMode : QuoteDraft N → Option FreightMode → Type 0
  OnMode draft o = (is_leg_started draft ≡ true) ↔ IsStarted o draft

  started : (draft : QuoteDraft N) (o : Option FreightMode) → draft.mode ≡ o → OnMode draft o
  started draft none e =
      let s = one_column draft none (ap variants_for_mode e) in
      let c = charge-IsCharged draft (inr e) in (λ h. c.0 (s.0 h), λ h. s.1 (c.1 h))
  started draft (some air) e =
      let s = one_column draft none (ap variants_for_mode e) in
      let c = charge-IsCharged draft (inl e) in (λ h. c.0 (s.0 h), λ h. s.1 (c.1 h))
  started draft (some road) e =
      let s = two_columns draft (some dedicated) (some groupage) (ap variants_for_mode e) in
      either s (road-IsTrucked draft dedicated e) (road-IsTrucked draft groupage e)
  started draft (some sea) e =
      let s = two_columns draft (some fcl) (some lcl) (ap variants_for_mode e) in
      either s (sea-IsShipped draft fcl e) (sea-IsShipped draft lcl e)

  -- Something is priced exactly if the draft's own rows hold a price of its mode.
  pub is_leg_started_iff :
      (draft : QuoteDraft N) → (is_leg_started draft ≡ true) ↔ IsStarted draft.mode draft
  is_leg_started_iff draft = started draft draft.mode refl

  abbrev AllDays : QuoteDraft N → List String → Type 0
  AllDays draft keys = All (λ key. transit_days_at draft.transit key ≢ none) keys

  one_key :
      (draft : QuoteDraft N) (key : String)
      → required_transit_keys draft ≡ key ∷ []
      → AllDays draft (required_transit_keys draft) ↔ HasDays key draft.transit
  one_key draft key e =
      let (to, from) = HasDays-iff key draft.transit in
      (λ h. to (subst (AllDays draft) e h).0, λ h. subst (AllDays draft) (sym e) (from h, tt))

  road_keys :
      (draft : QuoteDraft N) (d g : Bool)
      → draft.mode ≡ some road
      → is_variant_priced draft (some dedicated) ≡ d
      → is_variant_priced draft (some groupage) ≡ g
      → (AllDays draft (named_variants (priced_variants draft))) ↔ (
          (is_variant_priced draft (some dedicated) ≡ true → HasDays "DEDICATED" draft.transit)
          × (is_variant_priced draft (some groupage) ≡ true → HasDays "GROUPAGE" draft.transit))
  road_keys draft d g e x y =
      ground (
        arith,
        e,
        x,
        y,
        HasDays-iff "DEDICATED" draft.transit,
        HasDays-iff "GROUPAGE" draft.transit,
      )

  needs :
      (draft : QuoteDraft N) (o : Option FreightMode)
      → draft.mode ≡ o
      → is_leg_started draft ≡ true
      → AllDays draft (required_transit_keys draft) ↔ HasTransit o draft
  needs draft none e on = one_key draft "AIR" (ground (arith, e, on))
  needs draft (some air) e on = one_key draft "AIR" (ground (arith, e, on))
  needs draft (some sea) e on = one_key draft "SEA" (ground (arith, e, on))
  needs draft (some road) e on =
      let keys : required_transit_keys draft ≡ named_variants (priced_variants draft) =
        ground (arith, e, on) in
      let (to, from) = road_keys draft _ _ e refl refl in
      let d = road-IsTrucked draft dedicated e in
      let g = road-IsTrucked draft groupage e in
      (
        λ h. let (x, y) = to (subst (AllDays draft) keys h) in (λ t. x (d.1 t), λ t. y (g.1 t)),
        λ h. subst (AllDays draft) (sym keys) (from (λ t. h.0 (d.0 t), λ t. h.1 (g.0 t))),
      )

  -- Once something is priced, the transit times that are required are those that the mode needs.
  pub required_transit_keys_iff :
      (draft : QuoteDraft N)
      → is_leg_started draft ≡ true
      → All (λ key. transit_days_at draft.transit key ≢ none) (required_transit_keys draft)
        ↔ HasTransit draft.mode draft
  required_transit_keys_iff draft on = needs draft draft.mode refl on
