-- ===== src/Changes/Store.antt =====
-- The rows that a change reads and writes: legs, quotes, packages and their assignment to legs, and
-- the durable change log. `M` is what a leg freezes onto a quote when it is distributed or refreshed
-- (its manifest and its charge configuration, which are functions of the leg's rows).
use logistics.Common.{Bool, Option, List, String}
use logistics.Common.Dict.{Dict}
use logistics.Status.Vocabulary.{LegStatus, QuoteStatus}
use logistics.Changes.Impact.{ImpactClass}

module _ (M : Type 0) where
  pub record LegRow : Type 0 where
    pub query_id : String
    pub origin_point_id : Option String
    pub destination_point_id : Option String
    pub status : LegStatus
    pub frozen_view : M

  -- `submitted` and `draft` say whether submittedJson and draftJson are not null.
  pub record QuoteRow : Type 0 where
    pub query_id : String
    pub rfq_id : Option String
    pub freight_forwarder_id : String
    pub leg_id : String
    pub status : QuoteStatus
    pub submitted : Bool
    pub draft : Bool
    pub snapshot : Option M

-- a quote as the cascade's select returns it
pub record QuoteRef : Type 0 where
  pub quote_id : String
  pub freight_forwarder_id : String
  pub leg_id : String
  pub status : QuoteStatus

-- the record that a change order leaves
pub record ChangeLogRow : Type 0 where
  pub query_id : Option String
  pub entity : String
  pub entity_id : String
  pub actor_id : Option String
  pub impact_class : ImpactClass
  pub reason : String
  pub affected_legs : List String
  pub invalidated_quotes : List String
  pub refreshed_quotes : List String

module _ (M : Type 0) where
  pub record Db : Type 0 where
    pub legs : Dict (LegRow M)
    pub quotes : Dict (QuoteRow M)
    pub packages : List (String × String)  -- package and cargo
    pub leg_packages : List (String × String)  -- leg and package
    pub change_log : List ChangeLogRow
