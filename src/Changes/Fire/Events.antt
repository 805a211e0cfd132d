-- ===== src/Changes/Fire/Events.antt =====
-- The two loops of a cascade run to their end where every quote has an edge to INVALID and every leg
-- an edge back to READY_FOR_RFQ.
pub mod Loops
use logistics.Common.{
  ◌≡◌, refl, sym, subst, ap, ◌∙◌, ◌≢◌, ◌⊎◌, inl, inr, Bool, true, false, Option, none, some, List,
  [], ◌∷◌, String, arith, In, All, All-In, In-All, IsDistinct, Bool-cases, Option-cases, eq_iff,
  ◌==◌, string_eq, if◌then◌else◌,
}
use logistics.Common.Dict
use logistics.Status.Vocabulary.{
  LegStatus, LegEvent, QuoteStatus, QuoteEvent, leg_status_eq, leg_event_eq, quote_status_eq,
  quote_event_eq,
}
use logistics.Status.Machine.{find_transition, next_state}
use logistics.Status.Machines.{leg_app, quote_app}
use logistics.Status.Rollup.{recompute_leg}
use logistics.Changes.Store.{LegRow, QuoteRow, Db}
use logistics.Changes.Fire.{
  Run, done, thrown, illegal_leg, ◌>>=◌, database, quotes_of_leg, set_leg_status, set_quote_status,
  fire_leg, project_leg, fire_quote, invalidate_all, reopen_all,
}

-- the leg can be reopened for a new RFQ
abbrev pub Reopens : LegStatus → Type 0
Reopens s = next_state leg_app s LegEvent.reopen ≡ some LegStatus.ready_for_rfq

-- the quote can be invalidated
abbrev pub Invalidates : QuoteStatus → Type 0
Invalidates s = next_state quote_app s QuoteEvent.invalidate ≡ some QuoteStatus.invalid

-- What the projector does to a leg that can be reopened leaves it so.
recompute_leg-Reopens :
    (s t : LegStatus) (e : LegEvent) (qs : List QuoteStatus)
    → Reopens s
    → recompute_leg false s qs ≡ some e
    → next_state leg_app s e ≡ some t
    → Reopens t
unfolding recompute_leg next_state find_transition
recompute_leg-Reopens s t e qs h r n = ground arith

-- a predicate of a leg's status that the projector keeps
abbrev pub IsKept : (LegStatus → Type 0) → Type 0
IsKept P =
    (s t : LegStatus) (e : LegEvent) (qs : List QuoteStatus)
    → P s
    → recompute_leg false s qs ≡ some e
    → next_state leg_app s e ≡ some t
    → P t

-- The leg has been sent out, and is not yet awarded.
abbrev pub IsOut : LegStatus → Type 0
IsOut s =
    (s ≡ LegStatus.rfq_sent)
    ⊎ (s ≡ LegStatus.partially_quoted)
    ⊎ (s ≡ LegStatus.fully_quoted)
    ⊎ (s ≡ LegStatus.pending_approval)
    ⊎ (s ≡ LegStatus.approved)

reopen_cases :
    (s : LegStatus)
    → (IsOut s → next_state leg_app s LegEvent.reopen ≡ some LegStatus.ready_for_rfq)
      × (s ≡ LegStatus.ready_for_rfq → next_state leg_app s LegEvent.reopen ≡ some LegStatus.draft)
      × (¬ IsOut s → s ≢ LegStatus.ready_for_rfq → next_state leg_app s LegEvent.reopen ≡ none)
unfolding next_state find_transition
reopen_cases s = (λ h. ground arith, λ h. ground arith, λ h n. ground arith)

module _ {M : Type 0} where
  abbrev pub QuoteIs : (QuoteStatus → Type 0) → String → Db M → Type 0
  QuoteIs P id db = (row : QuoteRow M) × (Dict.get id db.quotes ≡ some row) × P row.status

  abbrev pub LegIs : (LegStatus → Type 0) → String → Db M → Type 0
  LegIs P id db = (row : LegRow M) × (Dict.get id db.legs ≡ some row) × P row.status

  pub project_leg-quotes :
      (b : Bool) (k : String) (db : Db M) → (project_leg b k db).quotes ≡ db.quotes
  unfolding project_leg
  project_leg-quotes b k db = ground arith

  pub project_leg-change_log :
      (b : Bool) (k : String) (db : Db M) → (project_leg b k db).change_log ≡ db.change_log
  unfolding project_leg
  project_leg-change_log b k db = ground arith

  -- The projector leaves the database, or moves the leg to a status that it may.
  pub project_leg_cases :
      (P : LegStatus → Type 0) (kept : IsKept P) (k : String) (db : Db M)
      → (project_leg false k db ≡ db)
        ⊎ ((r : LegRow M) × (t : LegStatus) × (Dict.get k db.legs ≡ some r)
            × (project_leg false k db ≡ set_leg_status k r t db)
            × (P r.status → P t))
  unfolding project_leg fire_leg
  project_leg_cases P kept k db = elim (Option-cases (Dict.get k db.legs)) [
    | inl n ↦ inl (rw (project_leg, n))
    | inr (r, fr) ↦ elim (Option-cases (recompute_leg false r.status (quotes_of_leg k db))) [
      | inl n ↦ inl (rw (project_leg, fr, n))
      | inr (e, fe) ↦ elim (Option-cases (next_state leg_app r.status e)) [
        | inl n ↦ inl (rw (project_leg, fr, fe, fire_leg, fr, n))
        | inr (t, ft) ↦ inr (
          r,
          t,
          fr,
          rw (project_leg, fr, fe, fire_leg, fr, ft),
          λ h. kept r.status t e (quotes_of_leg k db) h fe ft,
        )
      ]
    ]
  ]

  same_row :
      (k l : String) (row r : LegRow M) (db : Db M)
      → Dict.get l db.legs ≡ some row
      → Dict.get k db.legs ≡ some r
      → (k == l) ≡ true
      → row ≡ r
  same_row k l row r db found fr kl = ground (arith, eq_iff k l)

  set_leg_status-LegIs :
      (P : LegStatus → Type 0) (k l : String) (r : LegRow M) (t : LegStatus) (db : Db M)
      → Dict.get k db.legs ≡ some r
      → (P r.status → P t)
      → LegIs P l db
      → LegIs P l (set_leg_status k r t db)
  set_leg_status-LegIs P k l r t db fr keep (row, found, h) = elim (Bool-cases (k == l)) [
    | inl kl ↦ (
      record r { status = t },
      rw (Dict.get-set k l (record r { status = t }) db.legs, kl),
      keep (subst (λ x. P x.status) (same_row k l row r db found fr kl) h),
    )
    | inr kl ↦ (row, rw (Dict.get-set k l (record r { status = t }) db.legs, kl) found, h)
  ]

  pub project_leg-LegIs :
      (P : LegStatus → Type 0) (kept : IsKept P) (k l : String) (db : Db M)
      → LegIs P l db
      → LegIs P l (project_leg false k db)
  project_leg-LegIs P kept k l db here = elim (project_leg_cases P kept k db) [
    | inl same ↦ subst (LegIs P l) (sym same) here
    | inr (r, t, fr, moved, keep) ↦
        subst (LegIs P l) (sym moved) (set_leg_status-LegIs P k l r t db fr keep here)
  ]

  -- Of a leg's row the projector changes the status only.
  pub project_leg-row :
      (k l : String) (db : Db M) (row : LegRow M)
      → Dict.get l db.legs ≡ some row
      → (t : LegStatus) × (Dict.get l (project_leg false k db).legs
          ≡ some (record row { status = t }))
  project_leg-row k l db row found =
      elim (project_leg_cases (λ _. Unit) (λ _ _ _ _ _ _ _. tt) k db) [
        | inl same ↦ (row.status, rw same found)
        | inr (r, t, fr, moved, _) ↦ elim (Bool-cases (k == l)) [
          | inl kl ↦
              let at = same_row k l row r db found fr kl in
              (t, rw (moved, Dict.get-set k l (record r { status = t }) db.legs, kl, at) refl)
          | inr kl ↦
              (row.status, rw (moved, Dict.get-set k l (record r { status = t }) db.legs, kl) found)
        ]
      ]

  pub project_leg-Reopens :
      (k l : String) (db : Db M) → LegIs Reopens l db → LegIs Reopens l (project_leg false k db)
  project_leg-Reopens k l db here = project_leg-LegIs Reopens recompute_leg-Reopens k l db here

  pub fire_quote-invalidate :
      (id : String) (db : Db M) (row : QuoteRow M)
      → Dict.get id db.quotes ≡ some row
      → Invalidates row.status
      → fire_quote id QuoteEvent.invalidate db
        ≡ done (project_leg false row.leg_id (set_quote_status id row QuoteStatus.invalid db))
  unfolding fire_quote
  fire_quote-invalidate id db row found h = rw (fire_quote, found, h)

  pub fire_leg-reopen :
      (id : String) (db : Db M) (row : LegRow M)
      → Dict.get id db.legs ≡ some row
      → Reopens row.status
      → fire_leg id LegEvent.reopen db ≡ done (set_leg_status id row LegStatus.ready_for_rfq db)
  unfolding fire_leg
  fire_leg-reopen id db row found h = rw (fire_leg, found, h)

  -- REOPEN on a leg that exists: one that is out for quotation, under approval or approved goes back
  -- to READY_FOR_RFQ; one that is already at READY_FOR_RFQ goes back to DRAFT; on any other the event
  -- is illegal and nothing is written.
  pub fire_leg-reopen_cases :
      (id : String) (db : Db M) (row : LegRow M)
      → Dict.get id db.legs ≡ some row
      → (IsOut row.status
          → fire_leg id LegEvent.reopen db
            ≡ done (set_leg_status id row LegStatus.ready_for_rfq db))
        × (row.status ≡ LegStatus.ready_for_rfq
            → fire_leg id LegEvent.reopen db ≡ done (set_leg_status id row LegStatus.draft db))
        × (¬ IsOut row.status
            → row.status ≢ LegStatus.ready_for_rfq
            → fire_leg id LegEvent.reopen db ≡ thrown (illegal_leg row.status LegEvent.reopen) db)
  unfolding fire_leg
  fire_leg-reopen_cases id db row found = (
    λ out. rw (fire_leg, found, (reopen_cases row.status).0 out),
    λ ready. rw (fire_leg, found, (reopen_cases row.status).1 ready),
    λ in_ not_ready. rw (fire_leg, found, (reopen_cases row.status).2 in_ not_ready),
  )
