-- ===== src/Rfq/Selection.antt =====
-- apps/api/src/modules/rfq/rfq.service.ts, `setFfSelection`: the forwarders that a leg is to be sent to. The
-- database gives a new row its id: `new_id`, of its forwarder.
pub mod Wanted
pub mod After
pub mod Chosen
use logistics.Common.{
  Bool, true, false, ◌&&◌, not, Option, none, some, List, [], ◌∷◌, map, String, ◌==◌, string_eq,
  nat_eq, length, filter, includes, is_nil, if◌then◌else◌,
}
use logistics.Common.Dict
use logistics.Common.Dict.{Dict}
use logistics.Status.Vocabulary.{QuoteStatus, quote_status_eq}
use logistics.Changes.Store.{LegRow, QuoteRow, Db}
use logistics.Changes.Scope.{unique}
use logistics.Award.{AwardDb, is_locked}

pub data SelectionFault : Type 0 where
  query_locked leg_not_found unknown_or_inactive : SelectionFault

-- The call is refused with nothing written, or it returns the forwarders that are selected.
pub data Selection (M : Type 0) : Type 0 where
  refused : SelectionFault → Selection M
  selected : List String → AwardDb M → Selection M

-- `statuses` holds the status of each freight forwarder.
abbrev pub is_active_forwarder : Dict String → String → Bool
is_active_forwarder statuses id = elim (Dict.get id statuses) [
  | none ↦ false
  | some s ↦ s == "ACTIVE"
]

module _ {M : Type 0} where
  abbrev pub leg_of_query : String → Option (LegRow M) → Bool
  leg_of_query query_id none = false
  leg_of_query query_id (some leg) = leg.query_id == query_id

  abbrev pub is_select : String × QuoteRow M → Bool
  is_select e = e.1.status == QuoteStatus.select

  -- the quotes of the leg
  abbrev pub existing : String → Db M → List (String × QuoteRow M)
  existing leg_id db = filter (λ e. e.1.leg_id == leg_id) db.quotes.entries

  abbrev pub forwarders : List (String × QuoteRow M) → List String
  forwarders es = map (λ e. e.1.freight_forwarder_id) es

  -- currentSel and frozen
  abbrev pub current_sel : String → Db M → List String
  current_sel leg_id db = forwarders (filter is_select (existing leg_id db))

  abbrev pub frozen : String → Db M → List String
  frozen leg_id db = forwarders (filter (λ e. not (is_select e)) (existing leg_id db))

  abbrev pub to_add : String → List String → Db M → List String
  to_add leg_id wanted db =
      filter
        (λ id. not (includes (current_sel leg_id db) id) && not (includes (frozen leg_id db) id))
        wanted

  abbrev pub to_remove : String → List String → Db M → List String
  to_remove leg_id wanted db =
      map (λ e. e.0)
        (filter (λ e. not (includes wanted e.1.freight_forwarder_id))
          (filter is_select (existing leg_id db)))

  abbrev pub new_quote : String → String → String → QuoteRow M
  new_quote query_id leg_id ff_id = record {
    query_id = query_id;
    rfq_id = none;
    freight_forwarder_id = ff_id;
    leg_id = leg_id;
    status = QuoteStatus.select;
    submitted = false;
    draft = false;
    snapshot = none;
  }

  unfoldable pub delete_all : List String → Dict (QuoteRow M) → Dict (QuoteRow M)
  delete_all [] quotes = quotes
  delete_all (id ∷ ids) quotes = delete_all ids (Dict.delete id quotes)

  module _ (new_id : String → String) where
    unfoldable pub create_all :
        String → String → List String → Dict (QuoteRow M) → Dict (QuoteRow M)
    create_all query_id leg_id [] quotes = quotes
    create_all query_id leg_id (id ∷ ids) quotes =
        create_all query_id leg_id ids (Dict.set (new_id id) (new_quote query_id leg_id id) quotes)

    -- the transaction
    abbrev pub write_selection : String → String → List String → Db M → Db M
    write_selection query_id leg_id wanted db = record db {
      quotes =
          create_all query_id leg_id (to_add leg_id wanted db)
            (delete_all (to_remove leg_id wanted db) db.quotes);
    }

    abbrev pub select_forwarders : String → String → List String → AwardDb M → Selection M
    select_forwarders query_id leg_id wanted db =
        let after = write_selection query_id leg_id wanted db.rows in
        selected (current_sel leg_id after) (record db { rows = after })

    unfoldable pub set_ff_selection :
        Dict String → String → String → List String → AwardDb M → Selection M
    set_ff_selection statuses query_id leg_id ff_ids db =
        let wanted = unique ff_ids in
        if is_locked query_id db
        then refused query_locked
        else if not (leg_of_query query_id (Dict.get leg_id db.rows.legs))
        then refused leg_not_found
        else if not (length (filter (is_active_forwarder statuses) wanted) == length wanted)
        then refused unknown_or_inactive
        else select_forwarders query_id leg_id wanted db
