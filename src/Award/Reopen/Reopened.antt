-- ===== src/Award/Reopen/Reopened.antt =====
-- What reopening a comparison leaves.
use logistics.Common.{
  ◌≡◌, ◌≢◌, ◌↔◌, refl, sym, subst, ap, ◌∙◌, inl, inr, Bool, true, false, ◌&&◌, ◌||◌, not, none,
  some, List, [], ◌∷◌, map, String, arith, All, In-All, In, ◌==◌, string_eq, eq_iff, length, filter,
  Bool-cases,
}
use logistics.Common.Dict
use logistics.Common.Images.{map-In, filter-In_iff}
use logistics.Status.Vocabulary.{QueryStatus, LegStatus}
use logistics.Status.Query.{
  QueryView, QueryMilestones, derive_query_status, least_advanced, of_legs, of_least,
}
use logistics.Status.Query
use logistics.Award.{AwardDb, AwardDecisionEvent, is_locked}
use logistics.Award.Reopen.{
  ComparisonDb, QuotationRow, QueryRow, is_issued, is_draft, supersede, take_back, reopened,
  query_legs, reopen_event, log_reopens, view_of, project_query, reopen_writes, reopen_comparison,
}

-- in the client's hands: drafted or issued
abbrev pub is_with_client : String → QuotationRow → Bool
is_with_client query_id q = q.query_id == query_id && (is_draft q.status || is_issued q.status)

of_least-open :
    (ms : QueryMilestones) (s : LegStatus)
    → (of_least ms s ≢ QueryStatus.quoting_client)
      × (of_least ms s ≢ QueryStatus.awaiting_client_decision)
of_least-open ms s = ground arith

-- A quotation that is kept after it was superseded is not live.
supersede-live :
    (query_id : String) (q : QuotationRow)
    → not ((supersede query_id q).query_id == query_id && is_draft (supersede query_id q).status)
      ≡ true
    → is_with_client query_id (supersede query_id q) ≡ false
supersede-live query_id q kept = elim (Bool-cases (q.query_id == query_id && is_issued q.status)) [
  | inl out ↦ rw out (ground (arith))
  | inr stays ↦ ground (arith, stays, kept)
]

take_back-In :
    (query_id : String) (qs : List QuotationRow) (q : QuotationRow)
    → In q (take_back query_id qs) ↔ (
        ((r : QuotationRow) × In r qs × (q ≡ supersede query_id r))
        × (not (q.query_id == query_id && is_draft q.status) ≡ true))
take_back-In query_id qs q =
    let (to, from) =
      filter-In_iff (λ q. not (q.query_id == query_id && is_draft q.status))
        (map (supersede query_id) qs) q in
    let (down, up) = map-In (supersede query_id) qs q in
    (λ m. let (there, kept) = to m in (down there, kept), λ h. from (up h.0, h.1))

take_back-live :
    (query_id : String) (qs : List QuotationRow) (q : QuotationRow)
    → In q (take_back query_id qs)
    → is_with_client query_id q ≡ false
take_back-live query_id qs q m =
    let ((r, _, same), kept) = (take_back-In query_id qs q).0 m in
    subst (λ x. is_with_client query_id x ≡ false) (sym same)
      (supersede-live query_id r
        (subst (λ x. not (x.query_id == query_id && is_draft x.status) ≡ true) same kept))

supersede_other :
    (query_id : String) (q : QuotationRow)
    → (q.query_id == query_id) ≡ false
    → supersede query_id q ≡ q
supersede_other query_id q other = rw other refl

supersede-query_id :
    (query_id : String) (q : QuotationRow) → (supersede query_id q).query_id ≡ q.query_id
supersede-query_id query_id q = elim (Bool-cases (q.query_id == query_id && is_issued q.status)) [
  | inl out ↦ rw out refl
  | inr stays ↦ rw stays refl
]

take_back-others :
    (query_id : String) (qs : List QuotationRow) (q : QuotationRow)
    → (In q (take_back query_id qs) × ((q.query_id == query_id) ≡ false))
      ↔ (In q qs × ((q.query_id == query_id) ≡ false))
take_back-others query_id qs q = (
  λ h.
      let ((r, there, same), _) = (take_back-In query_id qs q).0 h.0 in
      let id : q.query_id ≡ r.query_id =
        ap (λ x. x.query_id) same ∙ supersede-query_id query_id r in
      let other : (r.query_id == query_id) ≡ false = sym (ap (λ x. x == query_id) id) ∙ h.1 in
      (subst (λ x. In x qs) (sym (same ∙ supersede_other query_id r other)) there, h.1),
  λ h. (
    (take_back-In query_id qs q).1 ((q, h.0, sym (supersede_other query_id q h.1)), rw h.1 refl),
    h.1,
  ),
)

no_issue :
    (query_id : String) (qs : List QuotationRow)
    → ((q : QuotationRow) → In q qs → is_with_client query_id q ≡ false)
    → length (filter (λ q. q.query_id == query_id && is_issued q.status) qs) ≡ 0
no_issue query_id [] h = refl
no_issue query_id (q ∷ qs) h =
    ground (arith, h q (inl refl), no_issue query_id qs (λ r m. h r (inr m)))

of_legs-open :
    (ss : List LegStatus) (ms : QueryMilestones)
    → (of_legs ss ms ≢ QueryStatus.quoting_client)
      × (of_legs ss ms ≢ QueryStatus.awaiting_client_decision)
of_legs-open [] ms = ground arith
of_legs-open (s ∷ ss) ms = of_least-open ms (least_advanced s ss)

-- With no snapshot and nothing issued the status is that of the legs.
recompute-legs :
    (view : QueryView)
    → view.award_snapshot ≡ none
    → view.issued ≡ 0
    → (Query.recompute view ≢ QueryStatus.quoting_client)
      × (Query.recompute view ≢ QueryStatus.awaiting_client_decision)
unfolding Query.recompute derive_query_status
recompute-legs view unlocked none_issued =
    rw (none_issued, unlocked) (of_legs-open view.leg_statuses _)

module _ {M : Type 0} where
  log_reopens-rest :
      (reason user : String) (ls : List String) (db : AwardDb M)
      → ((log_reopens reason user ls db).rows ≡ db.rows)
        × ((log_reopens reason user ls db).decisions ≡ db.decisions)
        × ((log_reopens reason user ls db).snapshots ≡ db.snapshots)
  unfolding log_reopens
  log_reopens-rest reason user [] db = (refl, refl, refl)
  log_reopens-rest reason user (l ∷ ls) db =
      log_reopens-rest reason user ls
        (record db { events = reopen_event reason user l ∷ db.events })

  log_reopens-kept :
      (reason user : String) (ls : List String) (db : AwardDb M) (e : AwardDecisionEvent)
      → In e db.events
      → In e (log_reopens reason user ls db).events
  unfolding log_reopens
  log_reopens-kept reason user [] db e m = m
  log_reopens-kept reason user (l ∷ ls) db e m =
      log_reopens-kept reason user ls
        (record db { events = reopen_event reason user l ∷ db.events }) e (inr m)

  log_reopens-In :
      (reason user : String) (ls : List String) (db : AwardDb M) (l : String)
      → In l ls
      → In (reopen_event reason user l) (log_reopens reason user ls db).events
  unfolding log_reopens
  log_reopens-In reason user [] db l m = absurd m
  log_reopens-In reason user (k ∷ ls) db l (inl same) =
      log_reopens-kept reason user ls
        (record db { events = reopen_event reason user k ∷ db.events }) (reopen_event reason user l)
        (inl (ap (reopen_event reason user) same))
  log_reopens-In reason user (k ∷ ls) db l (inr m) =
      log_reopens-In reason user ls (record db { events = reopen_event reason user k ∷ db.events })
        l m

  reopened_view : String → String → String → QueryRow → ComparisonDb M → QueryView
  reopened_view query_id reason user row db =
      view_of query_id row (reopen_writes query_id reason user db)

  snapshot_gone :
      (query_id reason user : String) (db : ComparisonDb M)
      → Dict.get query_id (reopen_writes query_id reason user db).award.snapshots ≡ none
  snapshot_gone query_id reason user db =
      let cleared = record (db.award) { snapshots = Dict.delete query_id db.award.snapshots } in
      let (_, _, same) = log_reopens-rest reason user (query_legs query_id db.award) cleared in
      ap (Dict.get query_id) same
      ∙ ground
          (arith, Dict.get-delete query_id query_id db.award.snapshots, eq_iff query_id query_id)

  -- Reopening the comparison of a query that is there and is being quoted to its client: the query is no
  -- longer locked, no leg, quote or decision has changed, each leg has a record of it, no quotation of the
  -- query is drafted or issued, those of other queries are as they were, and the status that is written for
  -- the query is neither QUOTING_CLIENT nor AWAITING_CLIENT_DECISION.
  pub reopen_comparison-live :
      (query_id reason user : String) (db : ComparisonDb M) (row : QueryRow)
      → Dict.get query_id db.queries ≡ some row
      → is_locked query_id db.award ≡ true
      → (after : ComparisonDb M) × (status : QueryStatus) × (reopen_comparison query_id reason user
            db
          ≡ reopened after)
        × (is_locked query_id after.award ≡ false)
        × (after.award.rows ≡ db.award.rows)
        × (after.award.decisions ≡ db.award.decisions)
        × All
            (λ l. In (reopen_event reason user l) after.award.events)
            (query_legs query_id db.award)
        × All (λ q. is_with_client query_id q ≡ false) after.quotations
        × ((q : QuotationRow)
            → (In q after.quotations × ((q.query_id == query_id) ≡ false))
              ↔ (In q db.quotations × ((q.query_id == query_id) ≡ false)))
        × (Dict.get query_id after.queries ≡ some (record row { status = status }))
        × (status ≢ QueryStatus.quoting_client)
        × (status ≢ QueryStatus.awaiting_client_decision)
  unfolding reopen_comparison reopened_view
  reopen_comparison-live query_id reason user db row found locked =
      let cleared = record (db.award) { snapshots = Dict.delete query_id db.award.snapshots } in
      let legs = query_legs query_id db.award in
      let written = reopen_writes query_id reason user db in
      let (rows, decisions, _) = log_reopens-rest reason user legs cleared in
      let gone = snapshot_gone query_id reason user db in
      let view = reopened_view query_id reason user row db in
      let quiet = take_back-live query_id db.quotations in
      let (not_quoting, not_awaiting) =
        recompute-legs view gone (no_issue query_id written.quotations quiet) in
      let next : QueryRow = record row { status = Query.recompute view } in
      (
        record written { queries = Dict.set query_id next db.queries },
        Query.recompute view,
        rw (reopen_comparison, found, locked, project_query) refl,
        rw gone refl,
        rows,
        decisions,
        In-All (λ l. In (reopen_event reason user l) written.award.events) legs
            (λ l m. log_reopens-In reason user legs cleared l m),
        In-All (λ q. is_with_client query_id q ≡ false) written.quotations quiet,
        λ q. take_back-others query_id db.quotations q,
        Dict.get-set_same query_id next db.queries,
        not_quoting,
        not_awaiting,
      )
