-- ===== src/Indexer/Oracle.antt =====
-- backend/indexer/src/handlers/oracle.rs
pub mod Laws
use omniscient.Prelude.{ℕ, Bool, true, false, none, some, ltb, if◌then◌else◌, length, get_elem?}
use omniscient.Prelude.Result.{ok}
use omniscient.Shared.Domain.{bytes_eq}
use omniscient.Store.{
  Bytes, Market, MarketState, open_market, proposed, disputed, resolved, Tables, Sql, give, execute,
  ◌>>◌, block_number_field, expiry_field,
}
use omniscient.Store.Table.{insert_new, update_where}
use omniscient.Indexer.{Log, HandlerCtx, Alloy, with_i64, with_u256}

abbrev pub is_market : Bytes → Market → Bool
is_market id m = bytes_eq m.market_id id

unfoldable pub create_market : Bytes → ℕ → ℕ → ℕ → Tables → Tables
create_market id question expiry block t = record t {
  markets =
      insert_new (is_market id)
        (record {
          market_id = id;
          question_id = question;
          state = open_market;
          expiry = expiry;
          block_number = block;
        })
        t.markets;
}

unfoldable pub set_state : Bytes → MarketState → Tables → Tables
set_state id state t = record t {
  markets = update_where (is_market id) (λ m. record m { state = state }) t.markets;
}

unfoldable pub handle_market_created : Alloy → Log → HandlerCtx → Sql Bool
handle_market_created alloy log ctx = elim (get_elem? log.topics 1) [
  | none ↦ give (ok false)
  | some market_id ↦
      if ltb (length log.log_data) 64
      then give (ok false)
      else with_u256 alloy 0 log.log_data λ question_id. with_u256 alloy 32 log.log_data λ expiry.
        with_i64 expiry_field expiry λ expiry_i64.
          with_i64 block_number_field ctx.block_number λ block.
            execute (create_market market_id question_id expiry_i64 block) >> give (ok true)
]

-- The four handlers that set the state of a market.
abbrev pub state_handler : MarketState → Log → Sql Bool
state_handler state log = elim (get_elem? log.topics 1) [
  | none ↦ give (ok false)
  | some market_id ↦ execute (set_state market_id state) >> give (ok true)
]

unfoldable pub handle_outcome_proposed : Log → Sql Bool
handle_outcome_proposed log = state_handler proposed log

unfoldable pub handle_outcome_disputed : Log → Sql Bool
handle_outcome_disputed log = state_handler disputed log

unfoldable pub handle_outcome_resolved : Log → Sql Bool
handle_outcome_resolved log = state_handler resolved log

unfoldable pub handle_dispute_resolved : Log → Sql Bool
handle_dispute_resolved log = state_handler resolved log
