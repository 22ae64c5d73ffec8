-- ===== src/Indexer/Tests/Rounds.antt =====
-- Blocks that are finalized, a round of the indexer, and its start.
use omniscient.Prelude.{
  ℕ, ◌<◌, ◌≡◌, inr, refl, true, false, Option, none, some, List, [], ◌∷◌, arith,
}
use omniscient.Prelude.Integers.{pos}
use omniscient.Shared.Domain.{bytes_eq}
use omniscient.Shared.Order.{usdc}
use omniscient.Store.{Bytes, Balance, Checkpoint, IndexedLog}
use omniscient.Store.Table.{find}
use omniscient.Indexer.{deposited, i64_limit}
use omniscient.Indexer.Cursor.{Contracts}
use omniscient.Indexer.Reorg.Laws.{before}
use omniscient.Indexer.Finalization.{
  State, request_of, blocks_from, finalized_blocks, stored_hash, differs, finalize_block,
  finalize_each, finalize_blocks,
}
use omniscient.Indexer.Finalization.Laws.{IsDeep}
use omniscient.Indexer.Finalization.Progress.{
  cursor_of, IsAgreed, finalize_blocks-cursor_of, finalize_each-skips,
}
use omniscient.Indexer.Finalization.Requests.{finalize_block-requests}
use omniscient.Indexer.Loop.{Provider, run_indexer}
use omniscient.Indexer.Loop.Run.{run_indexer-IsDeep}
use omniscient.Indexer.Tests.{replicate, alloy, event}

abbrev config : Contracts
config = record {
  custody_addr = replicate 20 1;
  settlement_exchange_addr = replicate 20 2;
  oracle_addr = replicate 20 3;
}

abbrev row : Balance
row = record {
  user_address = replicate 20 5;
  asset_type = usdc;
  position_id = none;
  available_amount = pos 7;
  hold_amount = 0;
  finalized_block_number = 100;
}

abbrev checkpoint : ℕ → Checkpoint
checkpoint n = record { block_number = n; block_hash = replicate 32 4; is_finalized = false }

abbrev log : ℕ → IndexedLog
log n = record {
  block_number = n;
  tx_hash = replicate 32 0;
  log_index = 0;
  contract_address = replicate 20 1;
  topic0 = replicate 32 1;
}

abbrev start : State
start = record {
  db = record {
    tables = record {
      users = [];
      markets = [];
      balances = row ∷ [];
      orders = [];
      holds = [];
      cursors =
          record {
            contract_address = replicate 20 1;
            last_finalized_block = 90;
            last_finalized_block_hash = none;
          }
          ∷ [];
      checkpoints = checkpoint 100 ∷ checkpoint 102 ∷ [];
      logs = log 99 ∷ log 100 ∷ log 102 ∷ [];
    };
    refusals = [];
  };
  requests = [];
  failures = [];
}

abbrev get_block : ℕ → Option Bytes
get_block n = some (replicate 32 4)

finalize_blocks-cursor_of_example :
    cursor_of config.custody_addr
      (finalize_blocks config config.custody_addr get_block 100 102 113 start).db.tables
    ≡ some 101
unfolding cursor_of find bytes_eq finalized_blocks blocks_from stored_hash
finalize_blocks-cursor_of_example =
    finalize_blocks-cursor_of config config.custody_addr get_block 100 102 113 90 start
      (omega arith) (omega arith) refl
      (agreed 100 (omega arith) refl, (agreed 101 (omega arith) refl, tt)) refl
  where
    agreed :
        (n : ℕ)
        → n < i64_limit
        → differs (stored_hash n start.db.tables) (replicate 32 4) ≡ false
        → IsAgreed config config.custody_addr get_block start.db.tables n
    agreed n h d = record { hash = replicate 32 4; given = refl; agreed = d; fits = h }

-- The provider has other blocks now.
abbrev get_other : ℕ → Option Bytes
get_other n = some (replicate 32 6)

finalize_each-skips_example :
    ((finalize_block config config.custody_addr get_other 100 start).db.tables.logs ≡ log 99 ∷ [])
    × (cursor_of config.custody_addr
          (finalize_each config config.custody_addr get_other
            (100 ∷ 101 ∷ 102 ∷ [])
            start).db.tables
        ≡ some 102)
unfolding cursor_of find bytes_eq stored_hash before
finalize_each-skips_example =
    finalize_each-skips config config.custody_addr get_other 100 90 (101 ∷ 102 ∷ [])
      (replicate 32 6) start refl (omega arith) refl refl
      (agreed 101 (omega arith) refl, (agreed 102 (omega arith) refl, tt)) refl
  where
    agreed :
        (n : ℕ)
        → n < i64_limit
        → differs (stored_hash n (before 100 start.db.tables)) (replicate 32 6) ≡ false
        → IsAgreed config config.custody_addr get_other (before 100 start.db.tables) n
    agreed n h d = record { hash = replicate 32 6; given = refl; agreed = d; fits = h }

-- Two rows that were changed at block 100 and one that was not; the first post and the third to fifth
-- fail.
abbrev other_row : Balance
other_row = record row { user_address = replicate 20 6; available_amount = pos 9 }

abbrev failing : State
failing = record start {
  db = record (start.db) {
    tables = record (start.db.tables) {
      balances = row ∷ record row { finalized_block_number = 99 } ∷ other_row ∷ [];
    };
  };
  failures = true ∷ false ∷ true ∷ true ∷ true ∷ [];
}

finalize_block-requests_example :
    (finalize_block config config.custody_addr get_block 100 failing).requests
    ≡ request_of row
      ∷ request_of row
      ∷ request_of other_row
      ∷ request_of other_row
      ∷ request_of other_row
      ∷ []
unfolding find bytes_eq stored_hash
finalize_block-requests_example =
    finalize_block-requests config get_block 100 failing
      (record { hash = replicate 32 4; given = refl; agreed = refl; fits = omega arith }) refl

abbrev provider : Provider
provider = record {
  get_block_number = some 113;
  get_logs = λ a from to. some (event deposited ∷ []);
  get_block = get_block;
}

-- A round, one in which the provider does not answer, and another round.
abbrev answers : List Provider
answers =
    provider
    ∷ record provider { get_block_number = none }
    ∷ record provider { get_block_number = some 120; get_logs = λ a from to. none }
    ∷ []

run_indexer-IsDeep_example : IsDeep 120 (run_indexer alloy config answers start).db.tables
run_indexer-IsDeep_example =
    run_indexer-IsDeep alloy config answers 110 start (omega arith, (omega arith, tt))
      (record { checkpoints_deep = ground arith; cursors_deep = (inr (omega arith), tt) })
