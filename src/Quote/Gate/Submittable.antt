-- ===== src/Quote/Gate/Submittable.antt =====
-- What the submission gate accepts.
use logistics.Common.{
  ◌≡◌, ◌≢◌, ◌↔◌, true, false, Option, none, some, List, [], ◌∷◌, String, arith, All, string_eq, map,
}
use logistics.Findings.{Finding}
use logistics.Quote.Draft.{variant_eq, Number, QuoteDraftCharge, QuoteDraft}
use logistics.Quote.Charges.{ResolvedChargeLine}
use logistics.Quote.Gate.Priced.{
  IsStarted, HasTransit, is_leg_started_iff, required_transit_keys_iff,
}
use logistics.Quote.Rules.{
  Clock, each, is_leg_started, required_transit_keys, currency_rule, weight_rule, rate_rule,
  transit_rule, transit_suffix, custom_rule, warehouse_rule, transit_dates, window_of,
  deadline_rule, validity_rule, past_date_rule,
}
use logistics.Quote.Gate.{
  line_rule, charge_of, lines_rule, total_gross_wt_kg, piece_rule, validate_quote,
}
use logistics.Quote.Gate.Rows.{
  All-map_iff, IsLineOk, line_rule_iff, entered_dates, entered_dates_iff, weigh,
  total_gross_wt_kg-weigh,
}
use logistics.Quote.Rules.Meaning.{
  All-iff, is_before_iff, IsCustomOk, IsGiven, IsNotBefore, IsNotPast, IsValidUntil,
  currency_rule_iff, custom_rule_iff, each_nil_iff, joined_nil_iff, past_date_rule_iff,
  transit_rule_iff, validity_rule_iff, warehouse_rule_iff,
}

module _ {N : Type 0} (num : Number N) where
  -- no heavier than the cargo
  abbrev pub IsPieceOk : N → Option N → Type 0
  IsPieceOk total none = Unit
  IsPieceOk total (some w) = num.less total w ≡ false

  piece_rule_iff :
      (total : N) (o : Option N) (c : QuoteDraftCharge N)
      → (piece_rule num total o c ≡ []) ↔ IsPieceOk total o
  piece_rule_iff total o c = ground arith

module _ {N : Type 0} (num : Number N) (clock : Clock) (draft : QuoteDraft N)
    (deadline_iso now_iso : String) (lines : List ResolvedChargeLine) where
  -- what a draft must be to be submitted
  pub record Submittable : Type 0 where
    pub in_time : IsNotBefore clock deadline_iso now_iso
    pub currency : IsGiven draft.currency
    pub validity : IsValidUntil clock draft.quote_validity_until deadline_iso
    pub weight : draft.charged_weight_kg ≢ none
    pub started : IsStarted draft.mode draft
    pub lines_priced : All (λ l. IsLineOk num l.input_type l.definition_key draft.charges) lines
    pub transit : HasTransit draft.mode draft
    pub customs : All IsCustomOk draft.charges
    pub warehouses : All (λ w. w.amount ≢ none) draft.warehouse
    pub dates : All (IsNotPast clock now_iso) (entered_dates draft.transit)
    pub windows : All (λ w. IsNotPast clock now_iso w.cargo_acceptance_window) draft.warehouse
    pub pieces :
        All (λ c. IsPieceOk num (weigh num num.zero_ draft.cargo) c.piece_weight_kg) draft.charges

  abbrev rules : List (List Finding)
  rules =
      deadline_rule clock draft deadline_iso now_iso
      ∷ currency_rule draft
      ∷ validity_rule clock draft.quote_validity_until deadline_iso
      ∷ weight_rule draft
      ∷ rate_rule draft
      ∷ lines_rule num draft lines
      ∷ each (transit_rule draft (transit_suffix draft.mode)) (required_transit_keys draft)
      ∷ each (custom_rule draft) draft.charges
      ∷ each (warehouse_rule draft) draft.warehouse
      ∷ each (past_date_rule clock now_iso) (transit_dates draft.transit)
      ∷ each (past_date_rule clock now_iso) (map window_of draft.warehouse)
      ∷ each (λ c. piece_rule num (total_gross_wt_kg num draft) c.piece_weight_kg c) draft.charges
      ∷ []

  -- a rule on every value of a list, and its meaning
  each_iff :
      {A : Type 0} (rule : A → List Finding) (P : A → Type 0) (xs : List A)
      → ((x : A) → (rule x ≡ []) ↔ P x)
      → (each rule xs ≡ []) ↔ All P xs
  each_iff rule P xs h =
      let (a, b) = each_nil_iff rule xs in
      let (c, d) = All-iff (λ x. rule x ≡ []) P xs h in (λ e. c (a e), λ e. b (d e))

  lines_iff :
      (is_leg_started draft ≡ true)
      → (lines_rule num draft lines ≡ [])
        ↔ All (λ l. IsLineOk num l.input_type l.definition_key draft.charges) lines
  lines_iff on = rw on (
      each_iff (λ l. line_rule num draft l (charge_of num draft l)) _ lines
        (λ l. line_rule_iff num draft l))

  deadline_iff :
      (deadline_rule clock draft deadline_iso now_iso ≡ []) ↔ IsNotBefore clock deadline_iso now_iso
  deadline_iff =
      ground (arith, is_before_iff clock (clock.time_of deadline_iso) (clock.time_of now_iso))

  pieces_iff :
      (each (λ c. piece_rule num (total_gross_wt_kg num draft) c.piece_weight_kg c) draft.charges
        ≡ [])
      ↔ All (λ c. IsPieceOk num (weigh num num.zero_ draft.cargo) c.piece_weight_kg) draft.charges
  pieces_iff = rw (total_gross_wt_kg-weigh num draft) (
      each_iff _ _ _
        (λ c. piece_rule_iff num (weigh num num.zero_ draft.cargo) c.piece_weight_kg c))

  -- A draft draws no finding exactly if it may be submitted: the deadline has not passed, the currency,
  -- the charged weight and a validity that reaches the deadline are there, some variant is priced,
  -- every configured line, custom charge and warehouse is priced (with a remark where the price is
  -- zero, and on every custom charge), every transit time that the priced variants need is given, no
  -- date is in the past, and no piece outweighs the cargo.
  pub validate_quote-Submittable :
      (validate_quote num clock draft deadline_iso now_iso lines ≡ []) ↔ Submittable
  unfolding validate_quote
  validate_quote-Submittable = (
    λ h.
        let (e1, (e2, (e3, (e4, (e5, (e6, (e7, (e8, (e9, (e10, (e11, (e12, _)))))))))))) =
          (joined_nil_iff rules).0 h in
        let on : is_leg_started draft ≡ true = ground (arith, e5) in
        record {
          in_time = deadline_iff.0 e1;
          currency = (currency_rule_iff draft).0 e2;
          validity = (validity_rule_iff clock draft.quote_validity_until deadline_iso).0 e3;
          weight = ground (arith, e4);
          started = (is_leg_started_iff draft).0 on;
          lines_priced = (lines_iff on).0 e6;
          transit =
              (required_transit_keys_iff draft on).0
                ((each_iff _ _ _ (transit_rule_iff draft)).0 e7);
          customs = (each_iff _ _ _ (custom_rule_iff draft)).0 e8;
          warehouses = (each_iff _ _ _ (warehouse_rule_iff draft)).0 e9;
          dates =
              (entered_dates_iff clock now_iso draft.transit).0
                ((each_iff _ _ _ (past_date_rule_iff clock now_iso)).0 e10);
          windows =
              (All-map_iff _ window_of draft.warehouse).0
                ((each_iff _ _ _ (past_date_rule_iff clock now_iso)).0 e11);
          pieces = pieces_iff.0 e12;
        },
    λ s.
        let on = (is_leg_started_iff draft).1 s.started in
        (joined_nil_iff rules).1 (
          deadline_iff.1 s.in_time,
          (
            (currency_rule_iff draft).1 s.currency,
            (
              (validity_rule_iff clock draft.quote_validity_until deadline_iso).1 s.validity,
              (
                ground (arith, s.weight),
                (
                  ground (arith, on),
                  (
                    (lines_iff on).1 s.lines_priced,
                    (
                      (each_iff _ _ _ (transit_rule_iff draft)).1
                          ((required_transit_keys_iff draft on).1 s.transit),
                      (
                        (each_iff _ _ _ (custom_rule_iff draft)).1 s.customs,
                        (
                          (each_iff _ _ _ (warehouse_rule_iff draft)).1 s.warehouses,
                          (
                            (each_iff _ _ _ (past_date_rule_iff clock now_iso)).1
                                ((entered_dates_iff clock now_iso draft.transit).1 s.dates),
                            (
                              (each_iff _ _ _ (past_date_rule_iff clock now_iso)).1
                                  ((All-map_iff _ window_of draft.warehouse).1 s.windows),
                              (pieces_iff.1 s.pieces, tt),
                            ),
                          ),
                        ),
                      ),
                    ),
                  ),
                ),
              ),
            ),
          ),
        ),
  )
