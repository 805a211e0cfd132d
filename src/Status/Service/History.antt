-- ===== src/Status/Service/History.antt =====
-- What a fired event leaves behind, and what holds after any sequence of events on an owned status:
-- the column agrees with the log, and holds a state that the machine reaches.
use text.Mathlib.Text.{◌==◌ as str_eq}
use logistics.Common.{
  ◌≡◌, refl, sym, ◌∙◌, ap, subst, ◌≢◌, inl, inr, true, none, some, List, [], ◌∷◌, String, arith,
  eq_iff, Eq, if◌then◌else◌, Bool-cases, Option-cases,
}
use logistics.Common.Dict
use logistics.Status.Machine.{Transition, Machine, allow, find_transition, next_state, Reach, next}
use logistics.Status.Machines.{FireContext}
use logistics.Status.Service.{
  Table, StatusChangedEvent, FireResult, fired, failed, log_load, is_owned, dispatching_state_store,
  or_initial, guard_of, row_of, fire_on,
}

module _ {S E : Type 0} ⦃eS : Eq S⦄ ⦃eE : Eq E⦄ (m : Machine S E FireContext) (key : String)
    (owned : is_owned key ≡ true) where
  abbrev pub current : String → Table S E → S
  current id t = or_initial (Dict.get id t.column) m.initial

  -- What a committed event has done.
  pub record Committed (id : String) (event : E) (ctx : FireContext) (t t' : Table S E)
      (ev : StatusChangedEvent S E) : Type 0 where
    pub edge : Transition S E FireContext
    pub found : find_transition m (current id t) event ≡ some edge
    pub allowed : guard_of edge.guard ctx ≡ allow
    pub logged :
        t'.log ≡ row_of dispatching_state_store key id event ctx (current id t) edge.to ∷ t.log
    pub present : Dict.get id t.column ≢ none
    pub saved :
        (j : String)
        → Dict.get j t'.column ≡ (if str_eq id j then some edge.to else Dict.get j t.column)
    pub emitted : (ev.from ≡ current id t) × (ev.to ≡ edge.to) × (ev.entity_id ≡ id)

  -- An event that is committed took an edge that the machine has from the current state and whose
  -- guard allowed it; it put one row on the log, wrote the edge's target into the column of a row
  -- that was there, left every other row alone, and the event that is emitted says so. (The key is
  -- one that owns a column.)
  pub fire_on-Committed :
      (id : String) (event : E) (ctx : FireContext) (t : Table S E) {t' : Table S E}
      {ev : StatusChangedEvent S E}
      → fire_on dispatching_state_store m key id event ctx t ≡ fired t' ev
      → Committed id event ctx t t' ev
  unfolding fire_on
  fire_on-Committed id event ctx t {t'} {ev} h =
      elim (Option-cases (find_transition m (current id t) event)) [
        | inl missing ↦ absurd (ground (arith, missing, owned))
        | inr (edge, found) ↦ record {
          edge = edge;
          found = found;
          allowed = ground (arith, found, owned);
          logged = ground (arith, found, owned);
          present = ground (arith, found, owned);
          saved = λ j. ground (arith, found, owned, Dict.get-set id j edge.to t.column);
          emitted = (
            ground (arith, found, owned),
            ground (arith, found, owned),
            ground (arith, found, owned),
          );
        }
      ]

  -- An edge that is found leads where it says.
  next_state-found :
      (s : S) (e : E) (t : Transition S E FireContext)
      → find_transition m s e ≡ some t
      → next_state m s e ≡ some t.to
  unfolding next_state
  next_state-found s e t h = rw h

  -- the state that the log alone gives
  abbrev pub logged_state : String → Table S E → S
  logged_state id t = or_initial (log_load key id t) m.initial

  -- Every row's column holds what the log would give.
  abbrev pub Agrees : Table S E → Type 0
  Agrees t = (id : String) → Dict.get id t.column ≢ none → logged_state id t ≡ current id t

  log_load-cons :
      (id j : String) (event : E) (ctx : FireContext) (from to : S) (t t' : Table S E)
      → t'.log ≡ row_of dispatching_state_store key id event ctx from to ∷ t.log
      → log_load key j t' ≡ (if str_eq id j then some to else log_load key j t)
  log_load-cons id j event ctx from to t t' h = rw h (ground (arith, eq_iff key key, eq_iff id j))

  Committed-Agrees :
      (id : String) (event : E) (ctx : FireContext) (t t' : Table S E) (ev : StatusChangedEvent S E)
      → Committed id event ctx t t' ev
      → Agrees t
      → Agrees t'
  Committed-Agrees id event ctx t t' ev c h j there =
      let log = log_load-cons id j event ctx (current id t) c.edge.to t t' c.logged in
      elim (Bool-cases (str_eq id j)) [
        | inl same ↦ ground (arith, log, c.saved j, same)
        | inr other ↦
            let kept : Dict.get j t'.column ≡ Dict.get j t.column =
              ground (arith, c.saved j, other) in
            ground (arith, log, kept, other, h j (λ gone. there (kept ∙ gone)))
      ]

  -- Every row's column holds a state that the machine reaches from its initial one.
  abbrev pub HoldsReached : Table S E → Type 0
  HoldsReached t = (id : String) → Dict.get id t.column ≢ none → Reach m m.initial (current id t)

  Committed-HoldsReached :
      (id : String) (event : E) (ctx : FireContext) (t t' : Table S E) (ev : StatusChangedEvent S E)
      → Committed id event ctx t t' ev
      → HoldsReached t
      → HoldsReached t'
  Committed-HoldsReached id event ctx t t' ev c h j there = elim (Bool-cases (str_eq id j)) [
    | inl same ↦
        let now : current j t' ≡ c.edge.to = ground (arith, c.saved j, same) in
        subst (Reach m m.initial) (sym now)
          (next event (h id c.present) (next_state-found (current id t) event c.edge c.found))
    | inr other ↦
        let kept : Dict.get j t'.column ≡ Dict.get j t.column = ground (arith, c.saved j, other) in
        let same_state : current j t' ≡ current j t = ap (λ o. or_initial o m.initial) kept in
        subst (Reach m m.initial) (sym same_state) (h j (λ gone. there (kept ∙ gone)))
  ]

  -- a request to fire, and the table that a sequence of them leaves
  abbrev pub Call : Type 0
  Call = String × E × FireContext

  abbrev settle : FireResult S E → Table S E → Table S E
  settle (fired t' ev) t = t'
  settle (failed e) t = t

  unfoldable pub fire_all : List Call → Table S E → Table S E
  fire_all [] t = t
  fire_all ((id, event, ctx) ∷ calls) t =
      fire_all calls (settle (fire_on dispatching_state_store m key id event ctx t) t)

  -- What each committed event keeps, any sequence of events keeps, failures among them.
  fire_all-keeps :
      (P : Table S E → Type 0)
      → ((id : String) (event : E) (ctx : FireContext) (t t' : Table S E)
            (ev : StatusChangedEvent S E)
          → Committed id event ctx t t' ev
          → P t
          → P t')
      → (calls : List Call) (t : Table S E) → P t
      → P (fire_all calls t)
  unfolding fire_all
  fire_all-keeps P keep [] t h = h
  fire_all-keeps P keep ((id, event, ctx) ∷ calls) t h =
      fire_all-keeps P keep calls (settle (fire_on dispatching_state_store m key id event ctx t) t)
        (after (fire_on dispatching_state_store m key id event ctx t) refl)
    where
      after :
          (r : FireResult S E)
          → fire_on dispatching_state_store m key id event ctx t ≡ r
          → P (settle r t)
      after (fired t' ev) e = keep id event ctx t t' ev (fire_on-Committed id event ctx t e) h
      after (failed x) e = h

  -- If in every row the status column holds what the last StatusTransition row says (the initial
  -- state if there is none), it does so after any sequence of events, those that fail included.
  pub fire_all-Agrees : (calls : List Call) (t : Table S E) → Agrees t → Agrees (fire_all calls t)
  fire_all-Agrees = fire_all-keeps Agrees Committed-Agrees

  -- If every row holds a state that the machine reaches, so it does after any sequence of events.
  pub fire_all-HoldsReached :
      (calls : List Call) (t : Table S E) → HoldsReached t → HoldsReached (fire_all calls t)
  fire_all-HoldsReached = fire_all-keeps HoldsReached Committed-HoldsReached
