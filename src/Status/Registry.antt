-- ===== src/Status/Registry.antt =====
-- apps/api/src/modules/status/status.registry.ts: one machine per key, with the transitions that
-- other modules contribute. A contribution made before the key's own registration is stashed.
pub mod Order
use logistics.Common.{String, Option, none, some, List, [], ◌∷◌, ◌++◌}
use logistics.Common.Dict
use logistics.Common.Dict.{Dict}
use logistics.Status.Machine.{Transition, Machine}

-- `stashed ?? []`
abbrev pub or_nil {ℓ} : {A : Type ℓ} → Option (List A) → List A
or_nil none = []
or_nil (some xs) = xs

module _ (S E C : Type 0) where
  pub record Registry : Type 0 where
    pub machines : Dict (Machine S E C)
    pub pending : Dict (List (Transition S E C))

  -- one call of a module's `onModuleInit`
  pub data Setup : Type 0 where
    register_call : Machine S E C → Setup
    contribute_call : String → List (Transition S E C) → Setup

module _ {S E C : Type 0} where
  abbrev pub new : Registry S E C
  new = record { machines = Dict.empty; pending = Dict.empty }

  -- The stored machine has its own array of transitions, so later pushes do not reach the source's.
  unfoldable pub register : Machine S E C → Registry S E C → Registry S E C
  register machine r = record {
    machines =
        Dict.set machine.key
          (record machine {
            transitions = machine.transitions ++ or_nil (Dict.get machine.key r.pending);
          })
          r.machines;
    pending = Dict.delete machine.key r.pending;
  }

  unfoldable pub contribute : String → List (Transition S E C) → Registry S E C → Registry S E C
  contribute key transitions r = elim (Dict.get key r.machines) [
    | some machine ↦ record r {
      machines =
          Dict.set key (record machine { transitions = machine.transitions ++ transitions })
            r.machines;
    }
    | none ↦ record r {
      pending = Dict.set key (or_nil (Dict.get key r.pending) ++ transitions) r.pending;
    }
  ]

  -- `none` is the error "No status machine registered for key"
  unfoldable pub get : String → Registry S E C → Option (Machine S E C)
  get key r = Dict.get key r.machines

  -- The keys in the error that stops the boot; the boot goes on when there is none.
  unfoldable pub on_application_bootstrap : Registry S E C → List String
  on_application_bootstrap r = Dict.keys r.pending

  unfoldable pub run : List (Setup S E C) → Registry S E C → Registry S E C
  run [] r = r
  run (register_call m ∷ calls) r = run calls (register m r)
  run (contribute_call k ts ∷ calls) r = run calls (contribute k ts r)
