-- ===== src/Rfq/Expiry/Closed.antt =====
-- What the sweep at a deadline leaves of the quotes.
use mathlib.Core.Option
use mathlib.Core.Option.{some_inj}
use logistics.Common.{
  ◌≡◌, refl, sym, subst, ap, ◌∙◌, ◌↔◌, ◌⊎◌, inl, inr, true, false, ◌&&◌, not, Option, none, some,
  List, [], ◌∷◌, map, String, arith, In, IsDistinct, ◌==◌, string_eq, eq_iff, Bool-cases,
  Option-cases, if◌then◌else◌, includes,
}
use logistics.Common.Dict
use logistics.Common.Images.{map-In, In-map, filter-In_iff, filter-IsDistinct}
use logistics.Status.Vocabulary.{QuoteStatus, QuoteEvent, quote_status_eq, quote_event_eq}
use logistics.Status.Machine.{next_state, find_transition}
use logistics.Status.Machines.{quote_app}
use logistics.Changes.Store.{QuoteRow, Db}
use logistics.Changes.Fire.{fire_quote, set_quote_status}
use logistics.Changes.Fire.Events.{project_leg-quotes}
use logistics.Rfq.Expiry.{is_open, open_quotes, fire_expire, discard_and_expire, expire, expire_all}

-- the quote out of time, with the draft that was never submitted thrown away
abbrev pub closed : {M : Type 0} → QuoteRow M → QuoteRow M
closed row = record row {
  status = QuoteStatus.expired;
  draft = row.draft && not (row.status == QuoteStatus.rfq_sent);
}

-- The RFQ waits for an answer on the quote: it is one of the RFQ's own, and outstanding or asked again.
abbrev pub IsAwaited : {M : Type 0} → String → QuoteRow M → Type 0
IsAwaited rfq_id row =
    (row.rfq_id ≡ some rfq_id)
    × ((row.status ≡ QuoteStatus.rfq_sent) ⊎ (row.status ≡ QuoteStatus.requoted))

-- What becomes of a quote at the deadline: one that was never answered is EXPIRED and loses its draft,
-- one that was asked again is EXPIRED and keeps it, and any other is as it was.
abbrev pub IsSwept : {M : Type 0} → String → Option (QuoteRow M) → Option (QuoteRow M) → Type 0
IsSwept rfq_id none after = after ≡ none
IsSwept rfq_id (some row) after =
    (row.rfq_id ≡ some rfq_id
      → row.status ≡ QuoteStatus.rfq_sent
      → after ≡ some (record row { status = QuoteStatus.expired; draft = false }))
    × (row.rfq_id ≡ some rfq_id
        → row.status ≡ QuoteStatus.requoted
        → after ≡ some (record row { status = QuoteStatus.expired }))
    × (¬ IsAwaited rfq_id row → after ≡ some row)

-- the quote, closed if the RFQ waits for it
abbrev pub close : {M : Type 0} → String → QuoteRow M → QuoteRow M
close rfq_id row = if is_open rfq_id row then closed row else row

expires :
    (s : QuoteStatus)
    → includes (QuoteStatus.rfq_sent ∷ QuoteStatus.requoted ∷ []) s ≡ true
    → next_state quote_app s QuoteEvent.expire ≡ some QuoteStatus.expired
unfolding next_state find_transition
expires s h = ground arith

module _ {M : Type 0} where
  is_open-status :
      (rfq_id : String) (row : QuoteRow M)
      → is_open rfq_id row ≡ true
      → includes (QuoteStatus.rfq_sent ∷ QuoteStatus.requoted ∷ []) row.status ≡ true
  is_open-status rfq_id row h = ground arith

  fire_expire-quotes :
      (id : String) (row : QuoteRow M) (db : Db M)
      → Dict.get id db.quotes ≡ some row
      → next_state quote_app row.status QuoteEvent.expire ≡ some QuoteStatus.expired
      → (fire_expire id db).quotes
        ≡ Dict.set id (record row { status = QuoteStatus.expired }) db.quotes
  unfolding fire_quote
  fire_expire-quotes id row db found edge =
      rw (fire_quote, found, edge)
        (project_leg-quotes _ row.leg_id (set_quote_status id row QuoteStatus.expired db))

  sent-closed :
      (row : QuoteRow M)
      → (row.status == QuoteStatus.rfq_sent) ≡ true
      → closed row ≡ record row { status = QuoteStatus.expired; draft = false }
  sent-closed row sent =
      let gone : (row.draft && not (row.status == QuoteStatus.rfq_sent)) ≡ false =
        ground (arith, sent) in
      ap (λ b. record row { status = QuoteStatus.expired; draft = b }) gone

  requoted-closed :
      (row : QuoteRow M)
      → (row.status == QuoteStatus.rfq_sent) ≡ false
      → closed row ≡ record row { status = QuoteStatus.expired }
  requoted-closed row requoted =
      let kept : (row.draft && not (row.status == QuoteStatus.rfq_sent)) ≡ row.draft =
        ground (arith, requoted) in
      ap (λ b. record row { status = QuoteStatus.expired; draft = b }) kept

  expire-quotes :
      (id : String) (row : QuoteRow M) (db : Db M)
      → Dict.get id db.quotes ≡ some row
      → next_state quote_app row.status QuoteEvent.expire ≡ some QuoteStatus.expired
      → (k : String)
      → Dict.get k (expire id row db).quotes
        ≡ (if id == k then some (closed row) else Dict.get k db.quotes)
  unfolding expire
  expire-quotes id row db found edge k = elim (Bool-cases (row.status == QuoteStatus.rfq_sent)) [
    | inl sent ↦
        let bare : QuoteRow M = record row { draft = false } in
        let bared : Db M = record db { quotes = Dict.set id bare db.quotes } in
        rw (expire, sent, found, discard_and_expire)
          (ap (Dict.get k)
              (fire_expire-quotes id bare bared (Dict.get-set_same id bare db.quotes) edge)
            ∙ ground (
              arith,
              Dict.get-set id k bare db.quotes,
              Dict.get-set id k (record bare { status = QuoteStatus.expired }) bared.quotes,
              sent-closed row sent,
            ))
    | inr requoted ↦
        rw (expire, requoted)
          (ap (Dict.get k) (fire_expire-quotes id row db found edge)
            ∙ ground (
              arith,
              Dict.get-set id k (record row { status = QuoteStatus.expired }) db.quotes,
              requoted-closed row requoted,
            ))
  ]

  -- the loop, over quotes that the RFQ waits for
  expire_all-quotes :
      (rfq_id : String) (es : List (String × QuoteRow M)) (db : Db M) (k : String)
      → IsDistinct (map (λ e. e.0) es)
      → ((e : String × QuoteRow M)
          → In e es
          → (Dict.get e.0 db.quotes ≡ some e.1) × (is_open rfq_id e.1 ≡ true))
      → (In k (map (λ e. e.0) es)
          → Dict.get k (expire_all es db).quotes ≡ Option.map closed (Dict.get k db.quotes))
        × (¬ In k (map (λ e. e.0) es) → Dict.get k (expire_all es db).quotes ≡ Dict.get k db.quotes)
  unfolding expire_all
  expire_all-quotes rfq_id [] db k distinct there = (λ m. absurd m, λ _. refl)
  expire_all-quotes rfq_id ((id, row) ∷ es) db k (new, distinct) there =
      let (found, waits) = there (id, row) (inl refl) in
      let step =
        expire-quotes id row db found (expires row.status (is_open-status rfq_id row waits)) in
      let rest = expire_all-quotes rfq_id es (expire id row db) k distinct (λ e m.
        let (here, open_) = there e (inr m) in
        let other : (id == e.0) ≡ false = elim (Bool-cases (id == e.0)) [
          | inl same ↦ absurd (
              new (
                subst (λ x. In x (map (λ e. e.0) es)) (sym ((eq_iff id e.0).0 same))
                  (In-map (λ e. e.0) es e m)))
          | inr n ↦ n
        ] in
        (step e.0 ∙ rw other here, open_)) in
      elim (Bool-cases (id == k)) [
        | inl here ↦
            let at : id ≡ k = (eq_iff id k).0 here in
            let absent : ¬ In k (map (λ e. e.0) es) =
              λ m. new (subst (λ x. In x (map (λ e. e.0) es)) (sym at) m) in
            (
              λ _.
                  rest.1 absent
                  ∙ step k
                  ∙ rw here (
                      sym (
                        ap (Option.map closed)
                          (subst (λ x. Dict.get x db.quotes ≡ some row) at found))),
              λ n. absurd (n (inl (sym at))),
            )
        | inr far ↦ (
          λ m. elim m [
            | inl same ↦ absurd (ground (arith, far, eq_iff id k, same))
            | inr m' ↦ rest.0 m' ∙ ap (Option.map closed) (step k ∙ rw far refl)
          ],
          λ n. rest.1 (λ m. n (inr m)) ∙ step k ∙ rw far refl,
        )
      ]

  open_quotes-there :
      (rfq_id : String) (db : Db M)
      → IsDistinct (Dict.keys db.quotes)
      → (e : String × QuoteRow M) → In e (open_quotes rfq_id db)
      → (Dict.get e.0 db.quotes ≡ some e.1) × (is_open rfq_id e.1 ≡ true)
  unfolding Dict.keys
  open_quotes-there rfq_id db distinct e m =
      let (member, waits) = (filter-In_iff (λ e. is_open rfq_id e.1) db.quotes.entries e).0 m in
      (Dict.get-In db.quotes e.0 e.1 distinct member, waits)

  expire_all-close :
      (rfq_id : String) (db : Db M) (k : String)
      → IsDistinct (Dict.keys db.quotes)
      → Dict.get k (expire_all (open_quotes rfq_id db) db).quotes
        ≡ Option.map (close rfq_id) (Dict.get k db.quotes)
  unfolding Dict.keys
  expire_all-close rfq_id db k distinct =
      let there = open_quotes-there rfq_id db distinct in
      let keys_of = map (λ e. e.0) (open_quotes rfq_id db) in
      let loop =
        expire_all-quotes rfq_id (open_quotes rfq_id db) db k
          (filter-IsDistinct (λ e. e.0) (λ e. is_open rfq_id e.1) db.quotes.entries distinct)
          there in
      elim (Option-cases (Dict.get k db.quotes)) [
        | inl missing ↦
            let absent : ¬ In k keys_of = λ m.
              let (e, member, same) = (map-In (λ e. e.0) (open_quotes rfq_id db) k).0 m in
              ground (arith, (there e member).0, same, missing) in
            loop.1 absent ∙ rw missing refl
        | inr (row, found) ↦ elim (Bool-cases (is_open rfq_id row)) [
          | inl waits ↦
              let member : In (k, row) (open_quotes rfq_id db) =
                (filter-In_iff (λ e. is_open rfq_id e.1) db.quotes.entries (k, row)).1
                  (Dict.In-get db.quotes k row found, waits) in
              loop.0 (In-map (λ e. e.0) (open_quotes rfq_id db) (k, row) member)
              ∙ rw (found, waits) refl
          | inr shut ↦
              let absent : ¬ In k keys_of = λ m.
                let (e, member, same) = (map-In (λ e. e.0) (open_quotes rfq_id db) k).0 m in
                let (found_e, waits) = there e member in
                let row_e : some e.1 ≡ some row =
                  sym found_e ∙ ap (λ x. Dict.get x db.quotes) (sym same) ∙ found in
                ground (arith, ap (is_open rfq_id) (some_inj.0 row_e), waits, shut) in
              loop.1 absent ∙ rw (found, shut) refl
        ]
      ]

  is_open_iff :
      (rfq_id : String) (row : QuoteRow M) → (is_open rfq_id row ≡ true) ↔ IsAwaited rfq_id row
  is_open_iff rfq_id row = elim (Option-cases row.rfq_id) [
    | inl n ↦ ground (arith, n)
    | inr (id, e) ↦ ground (arith, e, eq_iff id rfq_id)
  ]

  close-IsSwept :
      (rfq_id : String) (before after : Option (QuoteRow M))
      → after ≡ Option.map (close rfq_id) before
      → IsSwept rfq_id before after
  close-IsSwept rfq_id none after h = h
  close-IsSwept rfq_id (some row) after h = (
    λ here sent.
        let on = (is_open_iff rfq_id row).1 (here, inl sent) in
        h ∙ rw on (ap some (sent-closed row (ground (arith, sent)))),
    λ here again.
        let on = (is_open_iff rfq_id row).1 (here, inr again) in
        h ∙ rw on (ap some (requoted-closed row (ground (arith, again)))),
    λ shut. elim (Bool-cases (is_open rfq_id row)) [
      | inl on ↦ absurd (shut ((is_open_iff rfq_id row).0 on))
      | inr off ↦ h ∙ rw off refl
    ],
  )

  pub expire_all-IsSwept :
      (rfq_id : String) (db : Db M) (k : String)
      → IsDistinct (Dict.keys db.quotes)
      → IsSwept rfq_id
          (Dict.get k db.quotes)
          (Dict.get k (expire_all (open_quotes rfq_id db) db).quotes)
  expire_all-IsSwept rfq_id db k distinct =
      close-IsSwept rfq_id (Dict.get k db.quotes) _ (expire_all-close rfq_id db k distinct)
