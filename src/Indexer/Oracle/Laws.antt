-- ===== src/Indexer/Oracle/Laws.antt =====
-- What the oracle handlers do to the states of the markets.
use omniscient.Prelude.{
  ◌≡◌, ◌≢◌, refl, sym, subst, arith, Bool, true, Option, none, some, List, [], ◌∷◌, get_elem?,
}
use omniscient.Prelude.Result.{Result, ok}
use omniscient.Shared.Domain.{bytes_eq_iff}
use omniscient.Store.{
  Bytes, Market, MarketState, proposed, disputed, resolved, Tables, Db, execute, Error,
}
use omniscient.Store.Table.{find, update_where}
use omniscient.Indexer.{Log}
use omniscient.Indexer.Oracle.{
  is_market, set_state, state_handler, handle_outcome_proposed, handle_outcome_disputed,
  handle_outcome_resolved, handle_dispute_resolved,
}

-- The state of a market, when there is a row.
unfoldable pub state_of : Bytes → Tables → Option MarketState
state_of id t = elim (find (is_market id) t.markets) [ none ↦ none | some m ↦ some m.state ]

-- The states after one market was set to a state.
abbrev pub IsSetTo : Bytes → MarketState → Tables → Tables → Type 0
IsSetTo id state t t' =
    (state_of id t' ≡ elim (state_of id t) [ none ↦ none | some s ↦ some state ])
    × ((other : Bytes) → other ≢ id → state_of other t' ≡ state_of other t)

-- Of a list of markets.
state_in : Bytes → List Market → Option MarketState
state_in id ms = elim (find (is_market id) ms) [ none ↦ none | some m ↦ some m.state ]

module _ (id : Bytes) (state : MarketState) where
  after : List Market → List Market
  after ms = update_where (is_market id) (λ m. record m { state = state }) ms

  state_in-same :
      (ms : List Market)
      → state_in id (after ms) ≡ elim (state_in id ms) [ none ↦ none | some s ↦ some state ]
  unfolding state_in after update_where find
  state_in-same [] = refl
  state_in-same (m ∷ ms) = ground (arith, state_in-same ms)

  state_in-other :
      (other : Bytes) (ms : List Market)
      → other ≢ id
      → state_in other (after ms) ≡ state_in other ms
  unfolding state_in after update_where find
  state_in-other other [] n = refl
  state_in-other other (m ∷ ms) n = ground (
    arith,
    state_in-other other ms n,
    bytes_eq_iff m.market_id other,
    bytes_eq_iff m.market_id id,
  )

  set_state-IsSetTo : (t : Tables) → IsSetTo id state t (set_state id state t)
  unfolding set_state state_of state_in after
  set_state-IsSetTo t = (state_in-same t.markets, λ other n. state_in-other other t.markets n)

state_handler_run :
    (state : MarketState) (log : Log) (db : Db) (topic : Bytes)
    → get_elem? log.topics 1 ≡ some topic
    → db.refusals ≡ []
    → state_handler state log db ≡ (ok true, record db { tables = set_state topic state db.tables })
unfolding execute
state_handler_run state log db topic h n = ground arith

state_handler-IsSetTo :
    (state : MarketState) (log : Log) (db : Db) (topic : Bytes)
    → get_elem? log.topics 1 ≡ some topic
    → db.refusals ≡ []
    → IsSetTo topic state db.tables (state_handler state log db).1.tables
state_handler-IsSetTo state log db topic h n =
    subst (λ (r : Result Bool Error × Db). IsSetTo topic state db.tables r.1.tables)
      (sym (state_handler_run state log db topic h n)) (set_state-IsSetTo topic state db.tables)

-- An event with a second topic: if the server refuses nothing, the four handlers of outcomes set the
-- market of that topic to proposed, disputed and twice resolved, whatever its state was, and no
-- other market; a market that is not there is not created.
pub handle_outcome-IsSetTo :
    (log : Log) (db : Db) (topic : Bytes)
    → get_elem? log.topics 1 ≡ some topic
    → db.refusals ≡ []
    → IsSetTo topic proposed db.tables (handle_outcome_proposed log db).1.tables
      × IsSetTo topic disputed db.tables (handle_outcome_disputed log db).1.tables
      × IsSetTo topic resolved db.tables (handle_outcome_resolved log db).1.tables
      × IsSetTo topic resolved db.tables (handle_dispute_resolved log db).1.tables
unfolding handle_outcome_proposed handle_outcome_disputed handle_outcome_resolved
    handle_dispute_resolved
handle_outcome-IsSetTo log db topic h n = (
  state_handler-IsSetTo proposed log db topic h n,
  state_handler-IsSetTo disputed log db topic h n,
  state_handler-IsSetTo resolved log db topic h n,
  state_handler-IsSetTo resolved log db topic h n,
)
