-- ===== src/Status/Service.antt =====
-- apps/api/src/modules/status/status.service.ts and state-store.ts: `fire`, the one door to a change
-- of status, over the state store that a machine's key selects. A table holds an entity's owned
-- status column and the rows of StatusTransition, the newest first; an error rolls the transaction
-- back, so it leaves the table that was given.
pub mod History
use text.Mathlib.Text.{◌==◌ as str_eq}
use mathlib.Core.Option
use logistics.Common.{
  Bool, true, false, ◌&&◌, ◌||◌, Option, none, some, List, [], ◌∷◌, String, Eq, find?,
  if◌then◌else◌,
}
use logistics.Common.Dict
use logistics.Common.Dict.{Dict}
use logistics.Findings.{Finding}
use logistics.Status.Machine.{Transition, Machine, GuardResult, allow, block, find_transition}
use logistics.Status.Registry
use logistics.Status.Registry.{Registry}
use logistics.Status.Machines.{FireContext}

module _ (S E : Type 0) where
  -- a row of StatusTransition
  pub record TransitionRow : Type 0 where
    pub entity : String
    pub entity_id : String
    pub from : S
    pub to : S
    pub event : E
    pub reason : Option String
    pub actor_id : Option String
    pub tenant_id : Option String

  pub record Table : Type 0 where
    pub column : Dict S
    pub log : List TransitionRow

  -- `save` fails where the row to update is not there.
  pub record StatusStateStore : Type 0 where
    pub load : String → String → Table → Option S
    pub save : String → String → S → Table → Option Table

  pub record StatusChangedEvent : Type 0 where
    pub entity : String
    pub entity_id : String
    pub from : S
    pub to : S
    pub event : E
    pub actor_id : Option String
    pub query_id : Option String

  pub data FireError : Type 0 where
    not_registered : String → FireError
    illegal_transition : String → S → E → FireError
    transition_blocked : List Finding → FireError
    missing_row : FireError

  -- The committed table with the event that is emitted after the commit, or the error.
  pub data FireResult : Type 0 where
    fired : Table → StatusChangedEvent → FireResult
    failed : FireError → FireResult

abbrev pub is_owned : String → Bool
is_owned entity = str_eq entity "leg" || str_eq entity "quote"

-- `?? machine.initial`
abbrev pub or_initial : {S : Type 0} → Option S → S → S
or_initial none initial = initial
or_initial (some s) initial = s

abbrev pub guard_of : Option (FireContext → GuardResult) → FireContext → GuardResult
guard_of none ctx = allow
guard_of (some guard) ctx = guard ctx

module _ {S E : Type 0} where
  -- is the row about this entity?
  abbrev pub is_about : String → String → TransitionRow S E → Bool
  is_about entity entity_id row = str_eq row.entity entity && str_eq row.entity_id entity_id

  -- LogBackedStateStore: the last row is the state.
  abbrev pub log_load : String → String → Table S E → Option S
  log_load entity entity_id t = Option.map (λ row. row.to) (find? (is_about entity entity_id) t.log)

  abbrev pub log_backed_state_store : StatusStateStore S E
  log_backed_state_store = record { load = log_load; save = λ entity entity_id to t. some t }

  -- `tx.leg.update`, `tx.quote.update`
  abbrev pub update_column : String → S → Table S E → Option (Table S E)
  update_column entity_id to t = elim (Dict.get entity_id t.column) [
    | none ↦ none
    | some old ↦ some (record t { column = Dict.set entity_id to t.column })
  ]

  -- DispatchingStateStore: `leg` and `quote` own a column, every other key keeps its log.
  abbrev pub dispatching_state_store : StatusStateStore S E
  dispatching_state_store = record {
    load = λ entity entity_id t.
        if is_owned entity then Dict.get entity_id t.column else log_load entity entity_id t;
    save = λ entity entity_id to t.
        if is_owned entity
        then update_column entity_id to t
        else log_backed_state_store.save entity entity_id to t;
  }

module _ {S E : Type 0} ⦃eS : Eq S⦄ ⦃eE : Eq E⦄ (store : StatusStateStore S E) where
  abbrev pub row_of : String → String → E → FireContext → S → S → TransitionRow S E
  row_of key entity_id event ctx from to = record {
    entity = key;
    entity_id = entity_id;
    from = from;
    to = to;
    event = event;
    reason = ctx.reason;
    actor_id = ctx.actor_id;
    tenant_id = ctx.tenant_id;
  }

  -- Append the row, save the column, and emit once both are committed.
  commit : String → String → E → FireContext → S → S → Table S E → FireResult S E
  commit key entity_id event ctx from to t =
      elim (store.save key entity_id to
        (record t { log = row_of key entity_id event ctx from to ∷ t.log })) [
          | none ↦ failed missing_row
          | some t' ↦ fired t' (record {
            entity = key;
            entity_id = entity_id;
            from = from;
            to = to;
            event = event;
            actor_id = ctx.actor_id;
            query_id = ctx.query_id;
          })
        ]

  -- the guard, then the commit
  take_edge :
      String
      → String
      → E
      → FireContext
      → S
      → Option (Transition S E FireContext)
      → Table S E
      → FireResult S E
  unfolding commit
  take_edge key entity_id event ctx current none t = failed (illegal_transition key current event)
  take_edge key entity_id event ctx current (some edge) t = elim (guard_of edge.guard ctx) [
    | block findings ↦ failed (transition_blocked findings)
    | allow ↦ commit key entity_id event ctx current edge.to t
  ]

  -- `fire` once the machine is at hand
  unfoldable pub fire_on :
      Machine S E FireContext → String → String → E → FireContext → Table S E → FireResult S E
  unfolding take_edge
  fire_on machine key entity_id event ctx t =
      let current = or_initial (store.load key entity_id t) machine.initial in
      take_edge key entity_id event ctx current (find_transition machine current event) t

  unfoldable pub fire :
      Registry S E FireContext → String → String → E → FireContext → Table S E → FireResult S E
  unfolding fire_on
  fire registry key entity_id event ctx t = elim (Registry.get key registry) [
    | none ↦ failed (not_registered key)
    | some machine ↦ fire_on machine key entity_id event ctx t
  ]
