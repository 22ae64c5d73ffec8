-- ===== src/Indexer/Loop.antt =====
-- backend/indexer/src/pipeline.rs and main.rs: the rounds of the loop, after the start.
pub mod Laws
pub mod Run
use omniscient.Prelude.{ℕ, Option, none, some, List, [], ◌∷◌}
use omniscient.Prelude.Result.{Result, ok, err}
use omniscient.Store.{Bytes, Cursor, Db, fetch}
use omniscient.Indexer.{Log, Alloy}
use omniscient.Indexer.Cursor.{Contracts, ensure_cursors}
use omniscient.Indexer.Finalization.{State, finalize_blocks}
use omniscient.Indexer.Pipeline.{block_range, process_logs}

-- What the provider answers: the number of the newest block, the logs of a contract in a range, and
-- the hash of a block.
pub record Provider : Type 0 where
  pub get_block_number : Option ℕ
  pub get_logs : Bytes → ℕ → ℕ → Option (List Log)
  pub get_block : ℕ → Option Bytes

module _ (alloy : Alloy) (config : Contracts) (provider : Provider) where
  unfoldable pub index_contract : ℕ → Cursor → State → State
  index_contract current_block c s = elim (block_range c.last_finalized_block current_block) [
    | none ↦ s
    | some (start, end) ↦ elim (provider.get_logs c.contract_address start end) [
      | none ↦ s
      | some logs ↦
          finalize_blocks config c.contract_address provider.get_block start end current_block
            (record s { db = process_logs alloy c.contract_address logs s.db })
    ]
  ]

  unfoldable pub index_contracts : ℕ → List Cursor → State → State
  index_contracts current_block [] s = s
  index_contracts current_block (c ∷ cs) s =
      index_contracts current_block cs (index_contract current_block c s)

  -- One turn of the ticker.
  unfoldable pub index_round : State → State
  index_round s = elim provider.get_block_number [
    | none ↦ s
    | some current_block ↦
        let r = fetch (λ t. t.cursors) s.db in
        elim r.0 [
          | err e ↦ record s { db = r.1 }
          | ok cursors ↦ index_contracts current_block cursors (record s { db = r.1 })
        ]
  ]

-- The turns of the ticker, each with what the provider answers then.
unfoldable pub index_loop : Alloy → Contracts → List Provider → State → State
index_loop alloy config [] s = s
index_loop alloy config (p ∷ ps) s = index_loop alloy config ps (index_round alloy config p s)

-- indexer/src/main.rs: the indexer ends if the cursors cannot be stored.
unfoldable pub run_indexer : Alloy → Contracts → List Provider → State → State
run_indexer alloy config ps s =
    let r = ensure_cursors config s.db in
    elim r.0 [
      | err e ↦ record s { db = r.1 }
      | ok u ↦ index_loop alloy config ps (record s { db = r.1 })
    ]
