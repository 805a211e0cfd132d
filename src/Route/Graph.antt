-- ===== src/Route/Graph.antt =====
-- packages/shared/src/route.ts, the graph of a route and its look-ups, and the required fields of a
-- point from packages/shared/src/points.ts. A `Map` from an id to the values that were pushed to it is
-- the filter of these values. The `label` of a row of cargo stands for `cargoLabel(c)`, which only the
-- messages show.
pub mod LookUps
use logistics.Common.{
  Bool, true, false, ◌&&◌, Option, none, some, List, [], ◌∷◌, ◌++◌, map, String, ◌==◌, string_eq,
  filter, if◌then◌else◌, Eq,
}
use logistics.Common.Dict
use logistics.Common.Dict.{Dict}
use logistics.Changes.Scope.{unique}
use logistics.Quote.Draft.{FreightMode, road, air, sea}
use logistics.Route.Layering.{truthy}

pub data PointType : Type 0 where
  pickup delivery warehouse airport seaport : PointType

pub record RoutePoint : Type 0 where
  pub id : String
  pub type_ : PointType
  pub name : Option String
  pub street_address : Option String
  pub city : Option String
  pub postal_code : Option String
  pub country : Option String
  pub contact_name : Option String
  pub contact_phone : Option String
  pub contact_email : Option String
  pub warehouse_type : Option String
  pub iata_code : Option String
  pub icao_code : Option String
  pub un_locode : Option String
  pub terminal : Option String
  pub timezone : Option String

pub record RouteLeg : Type 0 where
  pub id : String
  pub leg_code : String
  pub mode : Option FreightMode
  pub origin_point_id : Option String
  pub destination_point_id : Option String
  pub ready_date : Option String
  pub target_delivery : Option String

pub record RouteCargo : Type 0 where
  pub id : String
  pub label : String
  pub is_dangerous : Bool
  pub msds_file_id : Option String
  pub gross_wt : Option String
  pub volume_cbm : Option String

pub record LegCargo : Type 0 where
  pub leg_id : String
  pub cargo_item_id : String

pub record RouteGraph : Type 0 where
  pub query_id : String
  pub points : List RoutePoint
  pub legs : List RouteLeg
  pub cargo : List RouteCargo
  pub leg_cargo : List LegCargo

pub data RoutePhase : Type 0 where
  draft create : RoutePhase

abbrev pub is_airport : PointType → Bool
is_airport airport = true
is_airport _ = false

abbrev pub is_seaport : PointType → Bool
is_seaport seaport = true
is_seaport _ = false

abbrev pub is_delivery : PointType → Bool
is_delivery delivery = true
is_delivery _ = false

-- checkModeEndpoints
unfoldable pub check_mode_endpoints : FreightMode → PointType → PointType → Bool
check_mode_endpoints air o d = is_airport o && is_airport d
check_mode_endpoints sea o d = is_seaport o && is_seaport d
check_mode_endpoints road o d = true

abbrev pub Field : Type 0
Field = String × (RoutePoint → Option String)

abbrev pub located : List Field
located =
    ("city", λ p. p.city) ∷ ("postalCode", λ p. p.postal_code) ∷ ("country", λ p. p.country) ∷ []

-- POINT_REQUIRED_FIELDS
abbrev pub point_required_fields : PointType → List Field
point_required_fields pickup =
    ("name", λ p. p.name)
    ∷ ("streetAddress", λ p. p.street_address)
    ∷ (located
        ++ (("contactName", λ p. p.contact_name)
            ∷ ("contactPhone", λ p. p.contact_phone)
            ∷ ("contactEmail", λ p. p.contact_email)
            ∷ ("timezone", λ p. p.timezone)
            ∷ []))
point_required_fields delivery =
    ("name", λ p. p.name)
    ∷ ("streetAddress", λ p. p.street_address)
    ∷ (located
        ++ (("contactName", λ p. p.contact_name)
            ∷ ("contactPhone", λ p. p.contact_phone)
            ∷ ("timezone", λ p. p.timezone)
            ∷ []))
point_required_fields warehouse =
    ("name", λ p. p.name)
    ∷ ("streetAddress", λ p. p.street_address)
    ∷ (located ++ (("timezone", λ p. p.timezone) ∷ []))
point_required_fields airport =
    ("name", λ p. p.name)
    ∷ ("iataCode", λ p. p.iata_code)
    ∷ (located ++ (("timezone", λ p. p.timezone) ∷ []))
point_required_fields seaport =
    ("name", λ p. p.name)
    ∷ ("unLocode", λ p. p.un_locode)
    ∷ (located ++ (("timezone", λ p. p.timezone) ∷ []))

-- `new Map(values.map((v) => [v.id, v]))`
module _ {A : Type 0} (id : A → String) where
  dict_from : List A → Dict A → Dict A
  dict_from [] d = d
  dict_from (x ∷ xs) d = dict_from xs (Dict.set (id x) x d)

  unfoldable pub dict_of : List A → Dict A
  unfolding dict_from
  dict_of xs = dict_from xs Dict.empty

-- the values that are there, of a list of look-ups
abbrev pub present : {A : Type 0} → List (Option A) → List A
present [] = []
present (none ∷ os) = present os
present (some a ∷ os) = a ∷ present os

-- the ids that are not falsy
abbrev pub ids : List (Option String) → List String
ids os = present (map truthy os)

abbrev pub same_id : Option String → String → Bool
same_id none k = false
same_id (some s) k = s == k

module _ (graph : RouteGraph) where
  abbrev pub point_by_id : String → Option RoutePoint
  point_by_id id = Dict.get id (dict_of (λ p. p.id) graph.points)

  abbrev pub cargo_by_id : String → Option RouteCargo
  cargo_by_id id = Dict.get id (dict_of (λ c. c.id) graph.cargo)

  abbrev pub leg_by_id : String → Option RouteLeg
  leg_by_id id = Dict.get id (dict_of (λ l. l.id) graph.legs)

  abbrev pub name_of_point : String → Option RoutePoint → String
  name_of_point pid none = pid
  name_of_point pid (some p) = elim p.name [ none ↦ pid | some name ↦ name ]

  -- nameOf
  abbrev pub name_of_id : String → String
  name_of_id pid = name_of_point pid (point_by_id pid)

  -- legsByCargo.get(id) and cargosByLeg.get(id), empty if nothing was pushed
  abbrev pub legs_by_cargo : String → List String
  legs_by_cargo id = map (λ lc. lc.leg_id) (filter (λ lc. lc.cargo_item_id == id) graph.leg_cargo)

  abbrev pub cargos_by_leg : String → List String
  cargos_by_leg id = map (λ lc. lc.cargo_item_id) (filter (λ lc. lc.leg_id == id) graph.leg_cargo)

  -- incomingByPoint.get(id) and outgoingByPoint.get(id)
  abbrev pub incoming_by_point : String → List RouteLeg
  incoming_by_point pid = filter (λ l. same_id (truthy l.destination_point_id) pid) graph.legs

  abbrev pub outgoing_by_point : String → List RouteLeg
  outgoing_by_point pid = filter (λ l. same_id (truthy l.origin_point_id) pid) graph.legs

  -- the keys of incomingByPoint
  abbrev pub incoming_points : List String
  incoming_points = unique (ids (map (λ l. l.destination_point_id) graph.legs))

  -- the legs of a cargo row that are in the graph
  unfoldable pub legs_of_cargo : RouteCargo → List RouteLeg
  legs_of_cargo c = present (map (λ id. leg_by_id id) (legs_by_cargo c.id))
