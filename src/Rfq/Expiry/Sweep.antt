-- ===== src/Rfq/Expiry/Sweep.antt =====
-- The sweep at a deadline as a whole: the quotes, the legs and the timers that it leaves.
use logistics.Common.{
  ℕ, ◌≤◌, ◌≡◌, ◌≢◌, refl, sym, subst, inl, inr, false, ◌&&◌, Option, none, some, List, [], ◌∷◌,
  String, arith, All, IsDistinct, ◌==◌, string_eq, Bool-cases, Option-cases,
}
use logistics.Common.Dict
use logistics.Status.Vocabulary.{
  LegStatus, QuoteStatus, QuoteEvent, leg_rank, quote_status_eq, quote_event_eq, leg_event_eq,
}
use logistics.Status.Machine.{next_state, find_transition}
use logistics.Status.Machines.{quote_app}
use logistics.Status.Rollup.Walk.{recompute_leg-forward}
use logistics.Changes.Store.{LegRow, QuoteRow, Db}
use logistics.Changes.Fire.{fire_quote, set_quote_status}
use logistics.Changes.Fire.Events.{IsKept, LegIs, project_leg-LegIs}
use logistics.Rfq.Timers.{ScheduledEvent, is_for, is_outstanding, cancel}
use logistics.Rfq.Expiry.{RfqDb, fire_expire, expire, expire_all, open_quotes, on_expiry}
use logistics.Rfq.Expiry.Closed.{IsSwept, expire_all-IsSwept}

-- The leg is still there, and no further back.
abbrev pub IsAhead : {M : Type 0} → Option (LegRow M) → Option (LegRow M) → Type 0
IsAhead none after = Unit
IsAhead {M = M} (some row) after =
    (next : LegRow M) × (after ≡ some next) × (leg_rank row.status ≤ leg_rank next.status)

abbrev AtLeast : ℕ → LegStatus → Type 0
AtLeast n s = n ≤ leg_rank s

AtLeast-IsKept : (n : ℕ) → IsKept (AtLeast n)
AtLeast-IsKept n s t e qs h fires moves =
    let forward = recompute_leg-forward s qs in ground (arith, h, fires, moves, forward)

expire-not_requoted :
    (s t : QuoteStatus)
    → next_state quote_app s QuoteEvent.expire ≡ some t
    → (t == QuoteStatus.requoted) ≡ false
unfolding next_state find_transition
expire-not_requoted s t h = ground arith

-- every reminder of the RFQ has been fired or called off
abbrev pub IsSilenced : String → ScheduledEvent → Type 0
IsSilenced rfq_id e =
    (is_for "RFQ" rfq_id e && e.event_key == "rfq.reminder" && is_outstanding e) ≡ false

cancel-IsSilenced :
    (now : ℕ) (rfq_id : String) (rows : List ScheduledEvent)
    → All (IsSilenced rfq_id) (cancel now "RFQ" rfq_id "rfq.reminder" rows)
unfolding cancel
cancel-IsSilenced now rfq_id [] = tt
cancel-IsSilenced now rfq_id (e ∷ es) = (
  elim (Bool-cases (is_for "RFQ" rfq_id e && e.event_key == "rfq.reminder" && is_outstanding e)) [
    | inl waits ↦ rw waits (ground arith)
    | inr quiet ↦ rw quiet quiet
  ],
  cancel-IsSilenced now rfq_id es,
)

module _ {M : Type 0} where
  fire_expire-LegIs :
      (n : ℕ) (l id : String) (db : Db M)
      → LegIs (AtLeast n) l db
      → LegIs (AtLeast n) l (fire_expire id db)
  unfolding fire_quote
  fire_expire-LegIs n l id db here = elim (Option-cases (Dict.get id db.quotes)) [
    | inl missing ↦ rw (fire_quote, missing) here
    | inr (row, found) ↦ elim (Option-cases (next_state quote_app row.status QuoteEvent.expire)) [
      | inl stuck ↦ rw (fire_quote, found, stuck) here
      | inr (t, edge) ↦
          rw (fire_quote, found, edge, expire-not_requoted row.status t edge)
            (project_leg-LegIs (AtLeast n) (AtLeast-IsKept n) row.leg_id l
              (set_quote_status id row t db) here)
    ]
  ]

  expire-LegIs :
      (n : ℕ) (l id : String) (q : QuoteRow M) (db : Db M)
      → LegIs (AtLeast n) l db
      → LegIs (AtLeast n) l (expire id q db)
  unfolding expire
  expire-LegIs n l id q db here = elim (Bool-cases (q.status == QuoteStatus.rfq_sent)) [
    | inl sent ↦
        rw (expire, sent)
          (elim (Option-cases (Dict.get id db.quotes)) [
            | inl missing ↦ rw missing here
            | inr (row, found) ↦ rw found (fire_expire-LegIs n l id _ here)
          ])
    | inr requoted ↦ rw (expire, requoted) (fire_expire-LegIs n l id db here)
  ]

  expire_all-LegIs :
      (n : ℕ) (l : String) (es : List (String × QuoteRow M)) (db : Db M)
      → LegIs (AtLeast n) l db
      → LegIs (AtLeast n) l (expire_all es db)
  unfolding expire_all
  expire_all-LegIs n l [] db here = here
  expire_all-LegIs n l ((id, q) ∷ es) db here =
      expire_all-LegIs n l es (expire id q db) (expire-LegIs n l id q db here)

  ahead :
      (l : String) (es : List (String × QuoteRow M)) (db : Db M) (o : Option (LegRow M))
      → Dict.get l db.legs ≡ o
      → IsAhead o (Dict.get l (expire_all es db).legs)
  ahead l es db none at = tt
  ahead l es db (some row) at =
      expire_all-LegIs (leg_rank row.status) l es db (row, at, omega arith)

  on_expiry-run :
      (now : ℕ) (rfq_id : String) (db : RfqDb M)
      → Dict.get rfq_id db.rfqs ≢ none
      → on_expiry now rfq_id db ≡ record db {
        timers = cancel now "RFQ" rfq_id "rfq.reminder" db.timers;
        rows = expire_all (open_quotes rfq_id db.rows) db.rows;
      }
  unfolding on_expiry
  on_expiry-run now rfq_id db there = elim (Option-cases (Dict.get rfq_id db.rfqs)) [
    | inl missing ↦ absurd (there missing)
    | inr (rfq, found) ↦ rw (on_expiry, found) refl
  ]

  -- The sweep at the deadline of an RFQ that is there, where the ids of the quotes are distinct: each quote
  -- of this RFQ that is RFQ_SENT is EXPIRED with its draft thrown away, each that is REQUOTED is
  -- EXPIRED with its draft kept, and every other quote is as it was; every leg is still there and no further back; and no reminder of the RFQ is pending.
  pub on_expiry-close :
      (now : ℕ) (rfq_id : String) (db : RfqDb M)
      → Dict.get rfq_id db.rfqs ≢ none
      → IsDistinct (Dict.keys db.rows.quotes)
      → let after = on_expiry now rfq_id db in
        ((k : String) → IsSwept rfq_id (Dict.get k db.rows.quotes) (Dict.get k after.rows.quotes))
        × ((l : String) → IsAhead (Dict.get l db.rows.legs) (Dict.get l after.rows.legs))
        × All (IsSilenced rfq_id) after.timers
  on_expiry-close now rfq_id db there distinct =
      let run = sym (on_expiry-run now rfq_id db there) in
      let es = open_quotes rfq_id db.rows in
      (
        λ k.
            subst (λ d. IsSwept rfq_id (Dict.get k db.rows.quotes) (Dict.get k d.rows.quotes)) run
              (expire_all-IsSwept rfq_id db.rows k distinct),
        λ l.
            subst (λ d. IsAhead (Dict.get l db.rows.legs) (Dict.get l d.rows.legs)) run
              (ahead l es db.rows (Dict.get l db.rows.legs) refl),
        subst (λ d. All (IsSilenced rfq_id) d.timers) run (cancel-IsSilenced now rfq_id db.timers),
      )
