-- ===== src/Award/Reversal/Waits.antt =====
-- The status events of a re-quote, and where they leave the leg.
use logistics.Common.{
  ◌≡◌, refl, sym, subst, ap, ◌∙◌, ◌⊎◌, inl, inr, true, none, some, List, [], ◌∷◌, map, String,
  arith, In, Bool-cases, Option-cases, ◌==◌, string_eq, eq_iff, filter, any, if◌then◌else◌,
}
use logistics.Common.Dict
use logistics.Common.Images.{In-map, filter-In_iff}
use logistics.Status.Vocabulary.{
  LegStatus, LegEvent, QuoteStatus, QuoteEvent, leg_status_eq, leg_event_eq, quote_status_eq,
  quote_event_eq,
}
use logistics.Status.Machine.{next_state, find_transition}
use logistics.Status.Machines.{leg_app, quote_app}
use logistics.Status.Rollup.{recompute_leg}
use logistics.Status.Rollup.Walk.{apply_event, IsQuoting, recompute_leg-requoted}
use logistics.Changes.Store.{LegRow, QuoteRow, Db}
use logistics.Changes.Fire.{
  done, ◌>>=◌, set_leg_status, set_quote_status, project_leg, fire_quote, fire_leg, quotes_of_leg,
}
use logistics.Changes.Fire.Events.{LegIs, project_leg-quotes}
use logistics.Award.Reversal.{recompute_after_requote, reopen_award}

-- An event that the projector fires after a re-quote is one that the leg's machine has.
recompute_leg-legal :
    (s : LegStatus) (qs : List QuoteStatus) (e : LegEvent)
    → IsQuoting s
    → recompute_leg true s qs ≡ some e
    → next_state leg_app s e ≡ some (apply_event s (some e))
unfolding recompute_leg next_state find_transition
recompute_leg-legal s qs e h r = ground arith

frozen : (qs : List QuoteStatus) → recompute_leg true LegStatus.approved qs ≡ none
unfolding recompute_leg
frozen qs = refl

pub requote_edges :
    (s : QuoteStatus)
    → (s ≡ QuoteStatus.quoted) ⊎ (s ≡ QuoteStatus.approved) ⊎ (s ≡ QuoteStatus.expired)
    → next_state quote_app s QuoteEvent.request_requote ≡ some QuoteStatus.requoted
unfolding next_state find_transition
requote_edges s h = ground arith

reopen_award_edge :
    next_state leg_app LegStatus.approved LegEvent.reopen_award ≡ some LegStatus.fully_quoted
unfolding next_state find_transition
reopen_award_edge = refl

-- where a leg stands whose quotes are these, one of them being re-quoted
abbrev pub waiting_status : List QuoteStatus → LegStatus
waiting_status qs =
    if any (λ q. q == QuoteStatus.quoted) qs then LegStatus.partially_quoted else LegStatus.rfq_sent

module _ {M : Type 0} where
  pub lookup-In_entries :
      (es : List (String × QuoteRow M)) (k : String) (v : QuoteRow M)
      → Dict.get k (record { entries = es }) ≡ some v
      → In (k, v) es
  unfolding Dict.get
  lookup-In_entries [] k v h = absurd (ground arith)
  lookup-In_entries ((j, w) ∷ es) k v h = elim (Bool-cases (j == k)) [
    | inl jk ↦ inl (ground (arith, jk, eq_iff j k))
    | inr jk ↦ inr (lookup-In_entries es k v (ground (arith, jk)))
  ]

  requoted-In :
      (leg_id quote_id : String) (db : Db M) (q : QuoteRow M)
      → Dict.get quote_id db.quotes ≡ some q
      → q.leg_id ≡ leg_id
      → q.status ≡ QuoteStatus.requoted
      → In QuoteStatus.requoted (quotes_of_leg leg_id db)
  unfolding quotes_of_leg
  requoted-In leg_id quote_id db q found on at =
      let member = lookup-In_entries db.quotes.entries quote_id q found in
      let kept =
        (filter-In_iff (λ e. e.1.leg_id == leg_id) db.quotes.entries (quote_id, q)).1
          (member, (eq_iff q.leg_id leg_id).1 on) in
      subst (λ s. In s (quotes_of_leg leg_id db)) at
        (In-map (λ (e : String × QuoteRow M). e.1.status) _ (quote_id, q) kept)

  project_leg-waiting :
      (leg_id : String) (db : Db M) (row : LegRow M)
      → Dict.get leg_id db.legs ≡ some row
      → IsQuoting row.status
      → In QuoteStatus.requoted (quotes_of_leg leg_id db)
      → LegIs
          (λ s. s ≡ waiting_status (quotes_of_leg leg_id db))
          leg_id
          (project_leg true leg_id db)
  unfolding project_leg fire_leg
  project_leg-waiting leg_id db row found quoting member =
      let qs = quotes_of_leg leg_id db in
      let lands = recompute_leg-requoted row.status qs quoting member in
      elim (Option-cases (recompute_leg true row.status qs)) [
        | inl n ↦
            (row, rw (project_leg, found, n) found, ap (apply_event row.status) (sym n) ∙ lands)
        | inr (e, fires) ↦
            let t = apply_event row.status (some e) in
            let edge = recompute_leg-legal row.status qs e quoting fires in
            let run : project_leg true leg_id db ≡ set_leg_status leg_id row t db =
              rw (project_leg, found, fires, fire_leg, found, edge) refl in
            (
              record row { status = t },
              rw run (Dict.get-set_same leg_id _ db.legs),
              ap (apply_event row.status) (sym fires) ∙ lands,
            )
      ]

  fire_quote-requote :
      (id : String) (db : Db M) (q : QuoteRow M)
      → Dict.get id db.quotes ≡ some q
      → next_state quote_app q.status QuoteEvent.request_requote ≡ some QuoteStatus.requoted
      → fire_quote id QuoteEvent.request_requote db
        ≡ done (project_leg true q.leg_id (set_quote_status id q QuoteStatus.requoted db))
  unfolding fire_quote
  fire_quote-requote id db q found edge = ground (arith, found, edge)

  project_leg-frozen :
      (leg_id : String) (db : Db M) (row : LegRow M)
      → Dict.get leg_id db.legs ≡ some row
      → row.status ≡ LegStatus.approved
      → project_leg true leg_id db ≡ db
  unfolding project_leg
  project_leg-frozen leg_id db row found at =
      let still : recompute_leg true row.status (quotes_of_leg leg_id db) ≡ none =
        rw at (frozen (quotes_of_leg leg_id db)) in
      ground (arith, found, still)

  reopen_award-done :
      (leg_id : String) (db : Db M) (row : LegRow M)
      → Dict.get leg_id db.legs ≡ some row
      → row.status ≡ LegStatus.approved
      → reopen_award (row.status == LegStatus.approved) leg_id db
        ≡ recompute_after_requote leg_id (set_leg_status leg_id row LegStatus.fully_quoted db)
  unfolding fire_leg
  reopen_award-done leg_id db row found at =
      let edge : next_state leg_app row.status LegEvent.reopen_award ≡ some LegStatus.fully_quoted =
        rw at reopen_award_edge in
      ground (arith, found, edge)

  status_of_quotes :
      (leg_id : String) (a b : Db M)
      → a.quotes ≡ b.quotes
      → waiting_status (quotes_of_leg leg_id a) ≡ waiting_status (quotes_of_leg leg_id b)
  unfolding quotes_of_leg
  status_of_quotes leg_id a b same =
      ap
        (λ x. waiting_status (map (λ e. e.1.status) (filter (λ e. e.1.leg_id == leg_id) x.entries)))
        same

  -- the events of a re-quote, from a leg that is being quoted and from one that is approved
  pub requote_run :
      (leg_id quote_id : String) (db : Db M) (row : LegRow M) (q : QuoteRow M)
      → Dict.get leg_id db.legs ≡ some row
      → IsQuoting row.status ⊎ (row.status ≡ LegStatus.approved)
      → Dict.get quote_id db.quotes ≡ some q
      → q.leg_id ≡ leg_id
      → next_state quote_app q.status QuoteEvent.request_requote ≡ some QuoteStatus.requoted
      → (rows : Db M) × ((fire_quote quote_id QuoteEvent.request_requote db
            >>= reopen_award (row.status == LegStatus.approved) leg_id)
          ≡ done rows)
        × (rows.quotes ≡ (set_quote_status quote_id q QuoteStatus.requoted db).quotes)
        × LegIs (λ s. s ≡ waiting_status (quotes_of_leg leg_id rows)) leg_id rows
  unfolding project_leg quotes_of_leg
  requote_run leg_id quote_id db row q found at named on edge =
      let db0 = set_quote_status quote_id q QuoteStatus.requoted db in
      let q' = record q { status = QuoteStatus.requoted } in
      let member =
        requoted-In leg_id quote_id db0 q' (Dict.get-set_same quote_id q' db.quotes) on refl in
      let first : fire_quote quote_id QuoteEvent.request_requote db
          ≡ done (project_leg true leg_id db0) =
        fire_quote-requote quote_id db q named edge ∙ ap (λ k. done (project_leg true k db0)) on in
      elim at [
        | inl quoting ↦
            let quotes = project_leg-quotes true leg_id db0 in
            let (l, there, s) = project_leg-waiting leg_id db0 row found quoting member in
            (
              project_leg true leg_id db0,
              rw first (not_approved row.status quoting),
              quotes,
              (
                l,
                there,
                s ∙ sym (status_of_quotes leg_id (project_leg true leg_id db0) db0 quotes),
              ),
            )
        | inr settled ↦
            let db1 = set_leg_status leg_id row LegStatus.fully_quoted db0 in
            let row1 = record row { status = LegStatus.fully_quoted } in
            let there1 = Dict.get-set_same leg_id row1 db0.legs in
            let quotes = project_leg-quotes true leg_id db1 in
            let (l, there, s) =
              project_leg-waiting leg_id db1 row1 there1 (inr (inr refl)) member in
            (
              project_leg true leg_id db1,
              ap (λ r. r >>= reopen_award (row.status == LegStatus.approved) leg_id)
                    (first ∙ ap done (project_leg-frozen leg_id db0 row found settled))
                  ∙ reopen_award-done leg_id db0 row found settled,
              quotes,
              (
                l,
                there,
                s ∙ sym (status_of_quotes leg_id (project_leg true leg_id db1) db1 quotes),
              ),
            )
      ]
    where
      not_approved :
          (s : LegStatus)
          → IsQuoting s
          → (done (project_leg true leg_id (set_quote_status quote_id q QuoteStatus.requoted db))
              >>= reopen_award (s == LegStatus.approved) leg_id)
            ≡ done (project_leg true leg_id (set_quote_status quote_id q QuoteStatus.requoted db))
      not_approved s h = ground arith
