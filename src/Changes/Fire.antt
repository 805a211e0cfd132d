-- ===== src/Changes/Fire.antt =====
-- The status events of a change-order cascade, over the rows that it touches: `status.fire` for a leg
-- and for a quote on the assembled machines (on the edges that the cascade takes there is no guard),
-- and the listener of apps/api/src/modules/rfq/leg-quote.projector.ts that a quote's event awaits. An
-- error that is thrown after a commit leaves what was committed, so a run carries the database with
-- its error. The transition log and the recompute of the query's own status are not in these rows.
pub mod Events
use mathlib.Core.Option
use logistics.Common.{
  ◌⊎◌, inl, inr, Bool, ◌&&◌, not, true, false, Option, none, some, List, [], ◌∷◌, map, String, ◌==◌,
  string_eq, filter, includes, if◌then◌else◌,
}
use logistics.Common.Dict
use logistics.Status.Vocabulary.{
  LegStatus, LegEvent, QuoteStatus, QuoteEvent, leg_status_eq, leg_event_eq, quote_status_eq,
  quote_event_eq,
}
use logistics.Status.Machine.{next_state}
use logistics.Status.Machines.{leg_app, quote_app}
use logistics.Status.Rollup.{recompute_leg}
use logistics.Changes.Store.{LegRow, QuoteRow, Db}

pub data FireFault : Type 0 where
  illegal_leg : LegStatus → LegEvent → FireFault
  illegal_quote : QuoteStatus → QuoteEvent → FireFault
  missing_row : FireFault

-- the database, and the error that stopped the run
pub data Run (D : Type 0) : Type 0 where
  done : D → Run D
  thrown : FireFault → D → Run D

module _ {D : Type 0} where
  infixl 5 ◌>>=◌
  abbrev pub ◌>>=◌ : Run D → (D → Run D) → Run D
  done d >>= f = f d
  thrown e d >>= f = thrown e d

  abbrev pub database : Run D → D
  database (done d) = d
  database (thrown e d) = d

module _ {M : Type 0} where
  -- the statuses of a leg's quotes
  unfoldable pub quotes_of_leg : String → Db M → List QuoteStatus
  quotes_of_leg leg_id db =
      map (λ e. e.1.status) (filter (λ e. e.1.leg_id == leg_id) db.quotes.entries)

  abbrev pub set_leg_status : String → LegRow M → LegStatus → Db M → Db M
  set_leg_status id row status db = record db {
    legs = Dict.set id (record row { status = status }) db.legs;
  }

  abbrev pub set_quote_status : String → QuoteRow M → QuoteStatus → Db M → Db M
  set_quote_status id row status db = record db {
    quotes = Dict.set id (record row { status = status }) db.quotes;
  }

  -- `status.fire("leg", …)`, on an edge that has no guard
  unfoldable pub fire_leg : String → LegEvent → Db M → Run (Db M)
  fire_leg id event db = elim (Dict.get id db.legs) [
    | none ↦ thrown missing_row db
    | some row ↦ elim (next_state leg_app row.status event) [
      | none ↦ thrown (illegal_leg row.status event) db
      | some status ↦ done (set_leg_status id row status db)
    ]
  ]

  -- LegQuoteProjector.onQuoteStatusChanged: what it throws is logged and dropped.
  unfoldable pub project_leg : Bool → String → Db M → Db M
  unfolding fire_leg
  project_leg requoted leg_id db = elim (Dict.get leg_id db.legs) [
    | none ↦ db
    | some row ↦ elim (recompute_leg requoted row.status (quotes_of_leg leg_id db)) [
      | none ↦ db
      | some event ↦ database (fire_leg leg_id event db)
    ]
  ]

  -- `status.fire("quote", …)` with the listener that it awaits
  unfoldable pub fire_quote : String → QuoteEvent → Db M → Run (Db M)
  fire_quote id event db = elim (Dict.get id db.quotes) [
    | none ↦ thrown missing_row db
    | some row ↦ elim (next_state quote_app row.status event) [
      | none ↦ thrown (illegal_quote row.status event) db
      | some status ↦ done (
          project_leg (status == QuoteStatus.requoted) row.leg_id
            (set_quote_status id row status db))
    ]
  ]

  -- the two loops of the cascade, each `fire` in a transaction of its own
  unfoldable pub invalidate_all : List String → Db M → Run (Db M)
  invalidate_all [] db = done db
  invalidate_all (id ∷ ids) db = fire_quote id QuoteEvent.invalidate db >>= invalidate_all ids

  unfoldable pub reopen_all : List String → Db M → Run (Db M)
  reopen_all [] db = done db
  reopen_all (id ∷ ids) db = fire_leg id LegEvent.reopen db >>= reopen_all ids
