-- ===== src/Status/Machine.antt =====
-- packages/shared/src/status.ts, the generic state machine: transitions with a guard, machines, and
-- the matcher that decides which edge fires. A guard allows, or returns the findings that block.
use logistics.Common.{
  ◌≡◌, Bool, ◌&&◌, Option, some, List, String, Eq, ◌==◌, includes, includes_iff, find?, find?_sound,
  In, arith,
}
use mathlib.Core.Option
use logistics.Findings.{Finding}

pub data TransitionKind : Type 0 where
  forward reopen : TransitionKind

-- `true`, or why the edge is blocked
pub data GuardResult : Type 0 where
  allow : GuardResult
  block : List Finding → GuardResult

-- `from` is one state or an array of states; an effect that no edge of the program declares is left
-- out.
pub record Transition (S E C : Type 0) : Type 0 where
  pub from : List S
  pub event : E
  pub to : S
  pub guard : Option (C → GuardResult)
  pub kind : TransitionKind

pub record Machine (S E C : Type 0) : Type 0 where
  pub key : String
  pub initial : S
  pub transitions : List (Transition S E C)

module _ {S E C : Type 0} ⦃eS : Eq S⦄ ⦃eE : Eq E⦄ where
  -- does the edge leave `current` on `event`?
  abbrev pub fits : S → E → Transition S E C → Bool
  fits current event t = t.event == event && includes t.from current

  unfoldable pub find_transition : Machine S E C → S → E → Option (Transition S E C)
  find_transition machine current event = find? (fits current event) machine.transitions

  -- The edge that fires is one of the machine's, it is on the event, and the state is among its
  -- sources.
  pub find_transition_sound :
      (m : Machine S E C) (s : S) (e : E) {t : Transition S E C}
      → find_transition m s e ≡ some t
      → In t m.transitions × (t.event ≡ e) × In s t.from
  unfolding find_transition
  find_transition_sound m s e {t} h =
      let (fit, member) = find?_sound (fits s e) m.transitions h in
      (member, ground (arith, eE.same_iff t.event e), ground (arith, includes_iff t.from s))

  -- where an event leads, if an edge fires
  unfoldable pub next_state : Machine S E C → S → E → Option S
  next_state m s e = Option.map (λ t. t.to) (find_transition m s e)

-- The states that a run of events reaches from `s`.
pub data Reach {S E C : Type 0} ⦃eS : Eq S⦄ ⦃eE : Eq E⦄ (m : Machine S E C) (s : S)
    : S → Type 0 where
  here : Reach m s s
  next : {t u : S} (e : E) → Reach m s t → next_state m t e ≡ some u → Reach m s u
