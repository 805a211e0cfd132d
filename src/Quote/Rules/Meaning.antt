-- ===== src/Quote/Rules/Meaning.antt =====
-- What each rule of the submission gate asks for.
use logistics.Common.{
  ◌≡◌, refl, ◌≢◌, ◌↔◌, Bool, true, false, not, Option, none, some, List, [], ◌∷◌, ◌++◌, String,
  arith, All, Any, string_eq, eq_iff, filter, is_nil,
}
use logistics.Findings.{Finding}
use logistics.Quote.Draft.{
  variant_eq, QuoteDraftCharge, QuoteDraftWarehouse, QuoteDraft, is_falsy, is_blank,
}
use logistics.Quote.Rules.{
  Clock, is_before, when, each, joined, transit_days_at, currency_rule, transit_rule,
  transit_suffix, custom_rule, warehouse_rule, validity_rule, past_date_rule,
}

-- a string that is there and is not empty
abbrev pub IsGiven : Option String → Type 0
IsGiven none = ⊥
IsGiven (some s) = s ≢ ""

pub is_falsy_iff : (o : Option String) (f : Finding) → (when (is_falsy o) f ≡ []) ↔ IsGiven o
is_falsy_iff none f = ground arith
is_falsy_iff (some s) f = ground (arith, eq_iff s "")

-- Where both times can be read, the first is not earlier than the second.
abbrev pub IsNotEarlier : (clock : Clock) → Option clock.Time → Option clock.Time → Type 0
IsNotEarlier clock (some a) (some b) = clock.earlier a b ≡ false
IsNotEarlier clock (some a) none = Unit
IsNotEarlier clock none b = Unit

pub is_before_iff :
    (clock : Clock) (a b : Option clock.Time)
    → (is_before clock a b ≡ false) ↔ IsNotEarlier clock a b
is_before_iff clock (some a) (some b) = (λ h. h, λ h. h)
is_before_iff clock (some a) none = (λ _. tt, λ _. refl)
is_before_iff clock none b = (λ _. tt, λ _. refl)

-- The first date is not before the second.
abbrev pub IsNotBefore : (clock : Clock) → String → String → Type 0
IsNotBefore clock a b = IsNotEarlier clock (clock.time_of a) (clock.time_of b)

pub append_nil_iff : {A : Type 0} (xs ys : List A) → (xs ++ ys ≡ []) ↔ ((xs ≡ []) × (ys ≡ []))
append_nil_iff [] ys = (λ h. (refl, h), λ h. h.1)
append_nil_iff (x ∷ xs) ys = ground arith

pub joined_nil_iff : {A : Type 0} (ps : List (List A)) → (joined ps ≡ []) ↔ All (λ p. p ≡ []) ps
joined_nil_iff [] = (λ _. tt, λ _. refl)
joined_nil_iff (p ∷ []) = (λ h. (h, tt), λ h. h.0)
joined_nil_iff (p ∷ q ∷ ps) =
    let (to, from) = joined_nil_iff (q ∷ ps) in
    let (split, join) = append_nil_iff p (joined (q ∷ ps)) in
    (λ h. ((split h).0, to (split h).1), λ h. join (h.0, from h.1))

pub filtered_iff :
    {A : Type 0} (p : A → Bool) (xs : List A)
    → (not (is_nil (filter p xs)) ≡ true) ↔ Any (λ x. p x ≡ true) xs
filtered_iff p [] = ground arith
filtered_iff p (x ∷ xs) = ground (arith, filtered_iff p xs)

pub All-iff :
    {A : Type 0} (P Q : A → Type 0) (xs : List A) → ((x : A) → P x ↔ Q x) → All P xs ↔ All Q xs
All-iff P Q [] h = (λ _. tt, λ _. tt)
All-iff P Q (x ∷ xs) h =
    let (to, from) = All-iff P Q xs h in (λ a. ((h x).0 a.0, to a.1), λ b. ((h x).1 b.0, from b.1))

-- No value of the list breaks the rule.
pub each_nil_iff :
    {A : Type 0} (rule : A → List Finding) (xs : List A)
    → (each rule xs ≡ []) ↔ All (λ x. rule x ≡ []) xs
each_nil_iff rule [] = (λ _. tt, λ _. refl)
each_nil_iff rule (x ∷ xs) =
    ground (arith, append_nil_iff (rule x) (each rule xs), each_nil_iff rule xs)

absent_iff : (o : Option String) → (is_falsy o ≡ true) ↔ (¬ IsGiven o)
absent_iff none = (λ _ g. g, λ _. refl)
absent_iff (some s) = ground (arith, eq_iff s "")

module _ {N : Type 0} where
  -- a custom line carries a remark and an amount
  abbrev pub IsCustomOk : QuoteDraftCharge N → Type 0
  IsCustomOk c =
      ¬ IsGiven c.definition_key
      → ¬ IsGiven c.preset_key
      → (is_blank c.note ≡ false) × (c.amount ≢ none)

  pub custom_rule_iff :
      (draft : QuoteDraft N) (c : QuoteDraftCharge N) → (custom_rule draft c ≡ []) ↔ IsCustomOk c
  custom_rule_iff draft c = ground (arith, absent_iff c.definition_key, absent_iff c.preset_key)

  pub warehouse_rule_iff :
      (draft : QuoteDraft N) (w : QuoteDraftWarehouse N)
      → (warehouse_rule draft w ≡ []) ↔ (w.amount ≢ none)
  warehouse_rule_iff draft w = ground arith

  pub transit_rule_iff :
      (draft : QuoteDraft N) (key : String)
      → (transit_rule draft (transit_suffix draft.mode) key ≡ [])
        ↔ (transit_days_at draft.transit key ≢ none)
  transit_rule_iff draft key = ground arith

  pub currency_rule_iff :
      (draft : QuoteDraft N) → (currency_rule draft ≡ []) ↔ IsGiven draft.currency
  currency_rule_iff draft = is_falsy_iff draft.currency _

module _ (clock : Clock) where
  abbrev pub IsValidUntil : Option String → String → Type 0
  IsValidUntil none deadline_iso = ⊥
  IsValidUntil (some s) deadline_iso = (s ≢ "") × IsNotBefore clock s deadline_iso

  pub validity_rule_iff :
      (until : Option String) (deadline_iso : String)
      → (validity_rule clock until deadline_iso ≡ []) ↔ IsValidUntil until deadline_iso
  validity_rule_iff none deadline_iso = ground arith
  validity_rule_iff (some s) deadline_iso =
      ground
        (arith, eq_iff s "", is_before_iff clock (clock.time_of s) (clock.time_of deadline_iso))

  -- A date that is entered is not in the past.
  abbrev pub IsNotPast : String → Option String → Type 0
  IsNotPast now_iso none = Unit
  IsNotPast now_iso (some s) = s ≢ "" → IsNotBefore clock s now_iso

  pub past_date_rule_iff :
      (now_iso : String) (f : Option String × String × String)
      → (past_date_rule clock now_iso f ≡ []) ↔ IsNotPast now_iso f.0
  past_date_rule_iff now_iso (none, id, label) = (λ h. tt, λ h. refl)
  past_date_rule_iff now_iso (some v, id, label) =
      ground (arith, eq_iff v "", is_before_iff clock (clock.time_of v) (clock.time_of now_iso))
