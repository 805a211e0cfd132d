-- ===== src/Quote/Gate/Rows.antt =====
-- What the submission gate reads off the rows of a draft: the charge that answers a configured line, the
-- dates that were entered and the weight of the cargo (validateQuote of quote-engine.ts).
use logistics.Common.{
  ◌≡◌, ◌≢◌, refl, ◌↔◌, ◌⊎◌, inl, inr, true, false, Option, none, some, List, [], ◌∷◌, String, arith,
  All, string_eq, eq_iff, map, Bool-cases, find?,
}
use logistics.Quote.Draft.{
  Number, QuoteDraftCargo, QuoteDraftCharge, QuoteDraftTransit, QuoteDraft, is_blank,
}
use logistics.Quote.Charges.{
  ChargeLineInputType, plain, trucking, warehouse_staging, heavy_weight_calc, ResolvedChargeLine,
}
use logistics.Quote.Totals.{sum_from}
use logistics.Quote.Rules.{Clock, is_key, transit_dates}
use logistics.Quote.Gate.{line_rule, charge_of, total_gross_wt_kg}
use logistics.Quote.Rules.Meaning.{IsNotPast}

pub All-map_iff :
    {A B : Type 0} (P : B → Type 0) (f : A → B) (xs : List A)
    → All P (map f xs) ↔ All (λ x. P (f x)) xs
All-map_iff P f [] = (λ h. h, λ h. h)
All-map_iff P f (x ∷ xs) =
    let (to, from) = All-map_iff P f xs in (λ h. (h.0, to h.1), λ h. (h.0, from h.1))

is_key_iff : (o : Option String) (key : String) → (is_key o key ≡ true) ↔ (o ≡ some key)
is_key_iff none key = ground arith
is_key_iff (some k) key = ground (arith, eq_iff k key)

module _ {N : Type 0} where
  -- The first charge with the key is such a one.
  abbrev pub Answers : (QuoteDraftCharge N → Type 0) → String → List (QuoteDraftCharge N) → Type 0
  Answers P key [] = ⊥
  Answers P key (c ∷ cs) =
      ((c.definition_key ≡ some key) × P c) ⊎ ((c.definition_key ≢ some key) × Answers P key cs)

  -- the three figures of a heavy-weight charge
  abbrev pub IsWeighed : QuoteDraftCharge N → Type 0
  IsWeighed c =
      (c.piece_weight_kg ≢ none) × (c.airline_limit_kg ≢ none) × (c.rate_per_excess_kg ≢ none)

  -- the dates of the transit plan
  abbrev pub entered_dates : Option (QuoteDraftTransit N) → List (Option String)
  entered_dates none = []
  entered_dates (some t) =
      t.departure_date ∷ t.arrival_date ∷ t.planned_pickup_date ∷ t.planned_departure
      ∷ t.planned_arrival ∷ t.etd ∷ t.eta ∷ []

  pub entered_dates_iff :
      (clock : Clock) (now_iso : String) (o : Option (QuoteDraftTransit N))
      → All (λ f. IsNotPast clock now_iso f.0) (transit_dates o)
        ↔ All (IsNotPast clock now_iso) (entered_dates o)
  entered_dates_iff clock now_iso none = (λ h. h, λ h. h)
  entered_dates_iff clock now_iso (some t) = (λ h. h, λ h. h)

module _ {N : Type 0} (num : Number N) where
  -- An amount is there, and if it is zero a remark says why.
  abbrev pub IsAmountOk : Option N → Option String → Type 0
  IsAmountOk none remark = ⊥
  IsAmountOk (some a) remark = num.is_zero a ≡ true → is_blank remark ≡ false

  -- A configured line is answered by a charge that is priced.
  abbrev pub IsLineOk : ChargeLineInputType → String → List (QuoteDraftCharge N) → Type 0
  IsLineOk heavy_weight_calc key charges = Answers IsWeighed key charges
  IsLineOk plain key charges = Answers (λ c. IsAmountOk c.amount c.note) key charges
  IsLineOk trucking key charges = Unit
  IsLineOk warehouse_staging key charges = Unit

  -- the charge that was found is such a one
  abbrev IsAnswer : ChargeLineInputType → Option (QuoteDraftCharge N) → Type 0
  IsAnswer heavy_weight_calc none = ⊥
  IsAnswer heavy_weight_calc (some c) = IsWeighed c
  IsAnswer plain none = ⊥
  IsAnswer plain (some c) = IsAmountOk c.amount c.note
  IsAnswer trucking found = Unit
  IsAnswer warehouse_staging found = Unit

  line_rule-IsAnswer :
      (draft : QuoteDraft N) (line : ResolvedChargeLine) (found : Option (QuoteDraftCharge N))
      → (line_rule num draft line found ≡ []) ↔ IsAnswer line.input_type found
  line_rule-IsAnswer draft line found = ground arith

  abbrev found_in : String → List (QuoteDraftCharge N) → Option (QuoteDraftCharge N)
  found_in key charges = find? (λ c. is_key c.definition_key key) charges

  here :
      (t : ChargeLineInputType) (P : QuoteDraftCharge N → Type 0) (key : String)
      (c : QuoteDraftCharge N) (cs : List (QuoteDraftCharge N))
      → ((x : QuoteDraftCharge N) → IsAnswer t (some x) ↔ P x)
      → IsAnswer t (found_in key cs) ↔ Answers P key cs
      → IsAnswer t (found_in key (c ∷ cs)) ↔ Answers P key (c ∷ cs)
  here t P key c cs means rest = elim (Bool-cases (is_key c.definition_key key)) [
    | inl same ↦
        let at = (is_key_iff c.definition_key key).0 same in
        rw same (
          λ h. inl (at, (means c).0 h),
          λ h. elim h [ inl (_, p) ↦ (means c).1 p | inr (other, _) ↦ absurd (other at) ],
        )
    | inr differs ↦
        let other : c.definition_key ≢ some key =
          λ e. ground (arith, differs, (is_key_iff c.definition_key key).1 e) in
        rw differs (
          λ h. inr (other, rest.0 h),
          λ h. elim h [ inl (e, _) ↦ absurd (other e) | inr (_, later) ↦ rest.1 later ],
        )
  ]

  IsAnswer-Answers :
      (t : ChargeLineInputType) (key : String) (cs : List (QuoteDraftCharge N))
      → IsAnswer t (found_in key cs) ↔ IsLineOk t key cs
  IsAnswer-Answers trucking key cs = (λ h. h, λ h. h)
  IsAnswer-Answers warehouse_staging key cs = (λ h. h, λ h. h)
  IsAnswer-Answers plain key [] = (λ h. h, λ h. h)
  IsAnswer-Answers heavy_weight_calc key [] = (λ h. h, λ h. h)
  IsAnswer-Answers plain key (c ∷ cs) =
      here plain (λ c. IsAmountOk c.amount c.note) key c cs (λ x. (λ h. h, λ h. h))
        (IsAnswer-Answers plain key cs)
  IsAnswer-Answers heavy_weight_calc key (c ∷ cs) =
      here heavy_weight_calc IsWeighed key c cs (λ x. (λ h. h, λ h. h))
        (IsAnswer-Answers heavy_weight_calc key cs)

  pub line_rule_iff :
      (draft : QuoteDraft N) (line : ResolvedChargeLine)
      → (line_rule num draft line (charge_of num draft line) ≡ [])
        ↔ IsLineOk line.input_type line.definition_key draft.charges
  line_rule_iff draft line =
      let (a, b) = line_rule-IsAnswer draft line (charge_of num draft line) in
      let (c, d) = IsAnswer-Answers line.input_type line.definition_key draft.charges in
      (λ h. c (a h), λ h. b (d h))

  -- the weight of the cargo, added to what is there
  abbrev pub weigh : N → List (QuoteDraftCargo N) → N
  weigh kg [] = kg
  weigh kg (c ∷ cs) = weigh (num.add kg c.gross_wt_kg) cs

  sum_from-weigh :
      (kg : N) (cs : List (QuoteDraftCargo N))
      → sum_from num (λ c. c.gross_wt_kg) kg cs ≡ weigh kg cs
  unfolding sum_from
  sum_from-weigh kg [] = refl
  sum_from-weigh kg (c ∷ cs) = sum_from-weigh (num.add kg c.gross_wt_kg) cs

  pub total_gross_wt_kg-weigh :
      (draft : QuoteDraft N) → total_gross_wt_kg num draft ≡ weigh num.zero_ draft.cargo
  unfolding total_gross_wt_kg
  total_gross_wt_kg-weigh draft = sum_from-weigh num.zero_ draft.cargo
