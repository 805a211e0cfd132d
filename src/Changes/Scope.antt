-- ===== src/Changes/Scope.antt =====
-- impact.classifier.ts, scope.resolver.ts and live-quotes.ts under apps/api/src/modules/changes, with
-- the look-ups of routing/routing.service.ts: the legs that a change touches, and whether any of
-- them carries a quote that is still a live commitment.
pub mod Unique
pub mod Live
use Prim.Native.Char.{code}
use Prim.Native.String
use logistics.Common.{
  ℕ, zero, suc, ◌-◌, ◌≡◌, refl, Bool, true, false, ◌&&◌, ◌||◌, not, Option, none, some, List, [],
  ◌∷◌, ◌++◌, map, String, Eq, ◌==◌, string_eq, leb, ltb, filter, any, includes, nat_eq, is_nil,
  if◌then◌else◌, is_some,
}
use mathlib.Core.Option
use logistics.Common.Dict
use logistics.Findings.{FindingScope}
use logistics.Status.Vocabulary.{QuoteStatus, quote_status_eq}
use logistics.Changes.Impact.{ImpactClass, ImpactRegistry, class_of}
use logistics.Changes.Store.{LegRow, QuoteRow, QuoteRef, Db}

pub record ChangeRequest : Type 0 where
  pub entity : String
  pub id : String
  pub field : Option String
  pub action : Option String
  pub query_id : Option String
  pub actor_id : Option String
  pub reason : Option String

-- the statuses that are live whether or not the quote has a price
abbrev pub unconditionally_live : List QuoteStatus
unconditionally_live =
    QuoteStatus.rfq_sent ∷ QuoteStatus.quoted ∷ QuoteStatus.pending_approval ∷ QuoteStatus.approved
    ∷ []

abbrev pub invalidated : List QuoteStatus
invalidated =
    QuoteStatus.quoted ∷ QuoteStatus.pending_approval ∷ QuoteStatus.approved ∷ QuoteStatus.expired
    ∷ []

-- UUID_RE: hexadecimal digits in groups of 8, 4, 4, 4 and 12, joined by `-`
abbrev is_hex : ℕ → Bool
is_hex c = (leb b'0' c && leb c b'9') || (leb b'a' c && leb c b'f') || (leb b'A' c && leb c b'F')

-- the groups still to come; a group of no more digits is followed by `-`, or by the end
is_groups : ℕ → List ℕ → String → Bool
is_groups zero [] String.[] = true
is_groups zero [] (String.◌∷◌ c s) = false
is_groups zero (g ∷ gs) String.[] = false
is_groups zero (g ∷ gs) (String.◌∷◌ c s) = code c == b'-' && is_groups g gs s
is_groups (suc n) gs String.[] = false
is_groups (suc n) gs (String.◌∷◌ c s) = is_hex (code c) && is_groups n gs s

unfoldable pub is_uuid : String → Bool
unfolding is_groups
is_uuid id = is_groups 8 (4 ∷ 4 ∷ 4 ∷ 12 ∷ []) id

-- `[...new Set(xs)]`
unfoldable pub unique_from : List String → List String → List String
unique_from seen [] = []
unique_from seen (x ∷ xs) = elim (includes seen x) [
  | true ↦ unique_from seen xs
  | false ↦ x ∷ unique_from (x ∷ seen) xs
]

unfoldable pub unique : List String → List String
unfolding unique_from
unique xs = unique_from [] xs

-- the endpoint is this point
abbrev is_point : Option String → String → Bool
is_point none p = false
is_point (some x) p = x == p

pub data ClassifyError : Type 0 where
  no_field_or_action : ClassifyError
  no_impact_class : ClassifyError
  quote_not_found : ClassifyError

pub data Classified : Type 0 where
  classified : ImpactClass → List FindingScope → Classified
  unclassified : ClassifyError → Classified

-- `req.action ?? req.field`, where an empty name is falsy too
abbrev pub impact_key : ChangeRequest → Option String
impact_key req = or_field req.action req.field
  where
    or_field : Option String → Option String → Option String
    or_field (some a) f = if a == "" then none else some a
    or_field none (some f) = if f == "" then none else some f
    or_field none none = none

-- the legs, or the entity itself where there are none
abbrev pub scope_of : ChangeRequest → List String → List FindingScope
scope_of req [] = record { type_ = req.entity; id = some req.id } ∷ []
scope_of req (l ∷ ls) = map (λ id. record { type_ = "leg"; id = some id }) (l ∷ ls)

abbrev pub with_scope : ChangeRequest → ImpactClass → Option (List String) → Classified
with_scope req c none = unclassified quote_not_found
with_scope req c (some ls) = classified c (scope_of req ls)

-- the ids of the scope's legs: entries of type `leg` that have an id
abbrev pub leg_id_of : FindingScope → List String
leg_id_of s = elim s.id [ none ↦ [] | some id ↦ if s.type_ == "leg" then id ∷ [] else [] ]

unfoldable pub leg_ids : List FindingScope → List String
leg_ids [] = []
leg_ids (s ∷ ss) = leg_id_of s ++ leg_ids ss

module _ {M : Type 0} where
  -- LIVE_QUOTE_WHERE
  abbrev pub is_live : QuoteRow M → Bool
  is_live q =
      includes unconditionally_live q.status || (q.status == QuoteStatus.expired && q.submitted)

  abbrev pub ref_of : String × QuoteRow M → QuoteRef
  ref_of (id, q) = record {
    quote_id = id;
    freight_forwarder_id = q.freight_forwarder_id;
    leg_id = q.leg_id;
    status = q.status;
  }

  -- `quote.findMany({ where: { legId: { in: legIds }, ...LIVE_QUOTE_WHERE } })`
  unfoldable pub find_live_quotes : List String → Db M → List (String × QuoteRow M)
  find_live_quotes leg_ids db =
      filter (λ e. includes leg_ids e.1.leg_id && is_live e.1) db.quotes.entries

  legs_carrying_package : String → Db M → List String
  legs_carrying_package package_id db =
      map (λ lp. lp.0) (filter (λ lp. lp.1 == package_id) db.leg_packages)

  legs_carrying_cargo : String → Db M → List String
  legs_carrying_cargo cargo_id db =
      let packages = map (λ p. p.0) (filter (λ p. p.1 == cargo_id) db.packages) in
      unique (map (λ lp. lp.0) (filter (λ lp. includes packages lp.1) db.leg_packages))

  legs_using_point : String → Db M → List String
  legs_using_point point_id db =
      map (λ e. e.0)
        (filter
          (λ e. is_point e.1.origin_point_id point_id || is_point e.1.destination_point_id point_id)
          db.legs.entries)

  legs_of_query : String → Db M → List String
  legs_of_query query_id db =
      map (λ e. e.0) (filter (λ e. e.1.query_id == query_id) db.legs.entries)

  leg_of_quote : String → Db M → Option String
  leg_of_quote quote_id db = Option.map (λ q. q.leg_id) (Dict.get quote_id db.quotes)

  -- the `switch` on the entity; `none` is the quote that does not exist
  unfoldable pub legs_of : ChangeRequest → Db M → Option (List String)
  unfolding legs_carrying_cargo legs_carrying_package legs_using_point legs_of_query leg_of_quote
  legs_of req db =
      if req.entity == "cargo"
      then some (legs_carrying_cargo req.id db)
      else if req.entity == "package"
      then some (legs_carrying_package req.id db)
      else if req.entity == "point"
      then some (legs_using_point req.id db)
      else if req.entity == "query"
      then some (legs_of_query req.id db)
      else if req.entity == "quotes"
      then Option.map (λ l. l ∷ []) (leg_of_quote req.id db)
      else if req.entity == "leg"
      then some (req.id ∷ [])
      else some []

  unfoldable pub classify : ImpactRegistry → ChangeRequest → Db M → Classified
  classify registry req db = elim (impact_key req) [
    | none ↦ unclassified no_field_or_action
    | some key ↦ elim (class_of registry req.entity key) [
      | none ↦ unclassified no_impact_class
      | some c ↦ with_scope req c (legs_of req db)
    ]
  ]

  unfoldable pub downstream_work : List FindingScope → Db M → Bool
  unfolding leg_ids find_live_quotes
  downstream_work scope db =
      let valid_leg_ids = filter is_uuid (leg_ids scope) in
      not (is_nil (find_live_quotes valid_leg_ids db))
