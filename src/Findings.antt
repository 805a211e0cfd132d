-- ===== src/Findings.antt =====
-- packages/shared/src/findings.ts: what a validation reports, the wizard tab that shows it, and the
-- removal of repeated findings.
pub mod Dedupe
use Prim.Native.String.{◌++◌ as str_append}
use text.Mathlib.Text.{starts_with}
use logistics.Common.{
  Bool, true, false, ◌||◌, ◌&&◌, Option, none, some, List, [], ◌∷◌, String, ◌==◌, string_eq,
  includes, if◌then◌else◌,
}

pub data Severity : Type 0 where
  blocking warning : Severity

-- The kind of thing that a finding is about: "query", "leg", "cargo", "package", "item", "point" or
-- "field".
pub record FindingScope : Type 0 where
  pub type_ : String
  pub id : Option String

pub record Finding : Type 0 where
  pub rule : String
  pub severity : Severity
  pub scope : FindingScope
  pub message : String

-- the wizard tab that a finding is shown on
pub data FindingTab : Type 0 where
  client shipment cargo legs notes : FindingTab

abbrev pub is_id : (String → Bool) → Option String → Bool
is_id test none = false
is_id test (some id) = test id

unfoldable pub finding_tab_key : Finding → FindingTab
finding_tab_key f =
    if f.scope.type_ == "cargo" || f.rule == "F6"
    then cargo
    else if f.scope.type_ == "leg" || f.scope.type_ == "point"
    then legs
    else if f.scope.type_ == "field" && is_id (λ id. id == "incoterms") f.scope.id
    then shipment
    else if f.scope.type_ == "field"
        && is_id (λ id. id == "notes" || starts_with id "checklist") f.scope.id
    then notes
    else if f.scope.type_ == "query"
    then if f.rule == "F1" then client else legs
    else client

abbrev pub severity_name : Severity → String
severity_name blocking = "blocking"
severity_name warning = "warning"

-- `id ?? ""`
abbrev pub or_blank : Option String → String
or_blank none = ""
or_blank (some id) = id

-- rule, severity, scope and message, joined by `|`
unfoldable pub finding_key : Finding → String
finding_key f = str_append f.rule (
    str_append "|" (
      str_append (severity_name f.severity) (
        str_append "|" (
          str_append f.scope.type_
            (str_append "|" (str_append (or_blank f.scope.id) (str_append "|" f.message)))))))

pub dedupe_from : List String → List Finding → List Finding
dedupe_from seen [] = []
dedupe_from seen (f ∷ fs) = elim (includes seen (finding_key f)) [
  | true ↦ dedupe_from seen fs
  | false ↦ f ∷ dedupe_from (finding_key f ∷ seen) fs
]

unfoldable pub dedupe_findings : List Finding → List Finding
unfolding dedupe_from
dedupe_findings findings = dedupe_from [] findings
