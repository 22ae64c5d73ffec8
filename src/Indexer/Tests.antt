-- ===== src/Indexer/Tests.antt =====
-- The theorems at concrete inputs.
mod Abi
mod Rounds
use omniscient.Prelude.{
  ℕ, zero, suc, ◌+◌, ◌*◌, ◌≡◌, ◌≢◌, refl, ap, is_empty, arith, true, false, none, some, [], ◌∷◌,
  ◌++◌, foldl,
}
use omniscient.Prelude.Integers.{pos}
use omniscient.Prelude.Result.{ok}
use omniscient.Store.{Bytes, OrderRow, open_order, Db, execute, fetch, transaction}
use omniscient.Indexer.{
  Log, HandlerCtx, Alloy, Event, deposited, withdrawn, forced_withdrawal_executed,
  operator_heartbeat, operator_inactivity_threshold_updated, fee_rates_updated, nonce_invalidated,
  outcome_resolved, market_created, outcome_proposed, outcome_disputed, dispute_resolved,
  topic_address, slice,
}
use omniscient.Store.Table.{find, upsert}
use omniscient.Shared.Domain.{bytes_eq, buy}
use omniscient.Indexer.Custody.{
  is_usdc_of, ensure_user_row, credit_usdc, handle_deposited, handle_withdrawn,
}
use omniscient.Indexer.Custody.Laws.{
  usdc_of, amount_of, handle_deposited-usdc, handle_withdrawn-usdc,
}
use omniscient.Store.{resolved, proposed}
use omniscient.Indexer.Oracle.{handle_outcome_proposed}
use omniscient.Indexer.Oracle.Laws.{state_of, handle_outcome-IsSetTo}
use omniscient.Indexer.Settlement.{handle_nonce_invalidated}
use omniscient.Indexer.Settlement.Laws.{IsAfter, IsRowwise, nonce_of, handle_nonce_invalidated_lem}
use omniscient.Indexer.Reorg.{rollback_unfinalized}
use omniscient.Indexer.Reorg.Laws.{before, rollback_unfinalized_lem}
use omniscient.Indexer.Pipeline.{
  process_log, index_new_log, index_log, record_log, put_checkpoint, put_log, is_indexed,
}
use omniscient.Indexer.Events.{dispatch, route}
use omniscient.Indexer.Pipeline.Once.{content, process_log-once}

abbrev pub replicate : ℕ → ℕ → Bytes
replicate zero x = []
replicate (suc n) x = x ∷ replicate n x

-- Big-endian numbers, and different topics for different events.
abbrev number : Event → ℕ
number deposited = 1
number withdrawn = 2
number forced_withdrawal_executed = 3
number operator_heartbeat = 4
number operator_inactivity_threshold_updated = 5
number fee_rates_updated = 6
number nonce_invalidated = 7
number outcome_resolved = 8
number market_created = 9
number outcome_proposed = 10
number outcome_disputed = 11
number dispute_resolved = 12

abbrev pub alloy : Alloy
alloy = record {
  from_be_bytes = λ bs. foldl (λ n b. n * 256 + b) 0 bs;
  topic_hash = λ e. replicate 32 (number e);
}

abbrev user : Bytes
user = replicate 32 5

-- An event with two words of data, 7 and 9.
abbrev pub event : Event → Log
event e = record {
  topics = replicate 32 (number e) ∷ user ∷ [];
  log_data = replicate 31 0 ++ 7 ∷ replicate 31 0 ++ 9 ∷ [];
  block_number = some 100;
  block_hash = none;
  transaction_hash = none;
  log_index = some 3;
}

abbrev ctx : HandlerCtx
ctx = record { block_number = 100; addr_bytes = replicate 20 1 }

abbrev order : ℕ → ℕ → OrderRow
order id nonce = record {
  order_id = id;
  user_address = topic_address user;
  market_id = user;
  side = buy;
  price = 500_000;
  amount = 10;
  filled_amount = 0;
  status = open_order;
  nonce = nonce;
  salt = user;
  position_id = 9;
  signature = [];
  deadline = 1_000;
}

abbrev empty : Db
empty = record {
  tables = record {
    users = [];
    markets = [];
    balances = [];
    orders = order 0 3 ∷ order 1 8 ∷ [];
    holds = [];
    cursors = [];
    checkpoints = [];
    logs = [];
  };
  refusals = [];
}

handle_deposited-usdc_example :
    usdc_of (topic_address user) (handle_deposited alloy (event deposited) ctx empty).1.tables
    ≡ some (pos 7)
unfolding usdc_of amount_of find slice
handle_deposited-usdc_example =
    (handle_deposited-usdc alloy (event deposited) ctx empty user refl (ground arith) refl
      (ground arith)).1

-- The withdrawal of an account that has no row.
handle_withdrawn-usdc_example :
    usdc_of (topic_address user) (handle_withdrawn alloy (event withdrawn) ctx empty).1.tables
    ≡ some (pos 7)
unfolding usdc_of amount_of find slice
handle_withdrawn-usdc_example =
    (handle_withdrawn-usdc alloy (event withdrawn) ctx empty user refl (ground arith) refl
      (ground arith)).2

handle_nonce_invalidated_lem_example :
    let r = handle_nonce_invalidated alloy (event nonce_invalidated) ctx empty in
    (r.0 ≡ ok true)
    × (nonce_of (topic_address user) r.1.tables ≡ some 7)
    × IsRowwise (IsAfter (topic_address user) 7) (order 0 3 ∷ order 1 8 ∷ []) r.1.tables.orders
unfolding amount_of slice
handle_nonce_invalidated_lem_example =
    handle_nonce_invalidated_lem alloy (event nonce_invalidated) ctx empty user refl (ground arith)
      (ground arith) refl

abbrev credited : Db
credited = (handle_deposited alloy (event deposited) ctx empty).1

rollback_unfinalized_lem_example :
    let r = rollback_unfinalized 90 credited in
    (credited.refusals ≡ [] → r.0 ≡ ok tt)
    × (r.0 ≡ ok tt → r.1.tables ≡ before 90 credited.tables)
    × (r.0 ≢ ok tt → r.1.tables ≡ credited.tables)
rollback_unfinalized_lem_example = rollback_unfinalized_lem 90 credited (omega arith)

abbrev address : Bytes
address = replicate 20 1

abbrev processed : Db
processed = process_log alloy address (event deposited) empty

has_balance : is_empty processed.tables.balances ≡ false
unfolding process_log index_new_log index_log record_log put_checkpoint put_log is_indexed dispatch
    route handle_deposited ensure_user_row credit_usdc is_usdc_of upsert bytes_eq execute fetch
    transaction slice
has_balance = refl

changed : content processed.tables ≢ content empty.tables
changed e = let i = has_balance in let j = ap (λ c. is_empty c.2) e in ground arith

process_log-once_example :
    (process_log alloy address (event deposited) (record processed { refusals = true ∷ [] })).tables
    ≡ processed.tables
process_log-once_example =
    process_log-once alloy address (event deposited) empty changed (true ∷ [])

abbrev marketed : Db
marketed = record empty {
  tables = record (empty.tables) {
    markets =
        record { market_id = user; question_id = 1; state = resolved; expiry = 2; block_number = 3 }
        ∷ [];
  };
}

-- A resolved market that is proposed again.
handle_outcome-IsSetTo_example :
    state_of user (handle_outcome_proposed (event outcome_proposed) marketed).1.tables
    ≡ some proposed
unfolding state_of find bytes_eq
handle_outcome-IsSetTo_example =
    (handle_outcome-IsSetTo (event outcome_proposed) marketed user refl refl).0.0
