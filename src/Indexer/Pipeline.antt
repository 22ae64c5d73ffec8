-- ===== src/Indexer/Pipeline.antt =====
-- backend/indexer/src/pipeline.rs: what the loop does with one log, and the blocks it asks for.
pub mod Once
use omniscient.Prelude.{
  ℕ, suc, zero, ◌+◌, ◌-◌, ◌*◌, ◌%◌, Bool, true, false, ◌&&◌, Option, none, some, List, [], ◌∷◌, ltb,
  ◌==◌, if◌then◌else◌, length, get_elem?, any, min,
}
use omniscient.Prelude.Result.{Result, ok, err}
use omniscient.Shared.Domain.{bytes_eq}
use omniscient.Store.{
  Bytes, Checkpoint, IndexedLog, Tables, Db, Sql, give, execute, fetch, transaction, ◌>>=◌, ◌>>◌,
  block_number_field, log_index_field,
}
use omniscient.Store.Table.{upsert, insert_new}
use omniscient.Indexer.{Log, HandlerCtx, Alloy, with_i64, i64_limit}
use omniscient.Indexer.Events.{dispatch}

-- `unwrap_or`
abbrev pub unwrap_or : {A : Type 0} → Option A → A → A
unwrap_or none d = d
unwrap_or (some a) d = a

abbrev pub zeroes : ℕ → Bytes
zeroes zero = []
zeroes (suc n) = 0 ∷ zeroes n

-- The transaction hash and the index of a log, with the defaults of the loop.
abbrev pub hash_of : Log → Bytes
hash_of log = unwrap_or log.transaction_hash (zeroes 32)

abbrev pub index_of : Log → ℕ
index_of log = unwrap_or log.log_index 0

abbrev pub is_entry : Bytes → ℕ → IndexedLog → Bool
is_entry hash index l = bytes_eq l.tx_hash hash && l.log_index == index

-- SELECT … FROM indexed_logs WHERE tx_hash = $1 AND log_index = $2
unfoldable pub is_indexed : Bytes → ℕ → Tables → Bool
is_indexed hash index t = any (is_entry hash index) t.logs

-- INSERT INTO reorg_checkpoints … ON CONFLICT … WHERE is_finalized = FALSE
unfoldable pub put_checkpoint : ℕ → Bytes → Tables → Tables
put_checkpoint block hash t = record t {
  checkpoints =
      upsert (λ c. c.block_number == block)
        (record { block_number = block; block_hash = hash; is_finalized = false })
        (λ c. if c.is_finalized then c else record c { block_hash = hash; is_finalized = false })
        t.checkpoints;
}

unfoldable pub put_log : ℕ → Bytes → ℕ → Bytes → Bytes → Tables → Tables
put_log block hash index address topic0 t = record t {
  logs =
      insert_new (is_entry hash index)
        (record {
          block_number = block;
          tx_hash = hash;
          log_index = index;
          contract_address = address;
          topic0 = topic0;
        })
        t.logs;
}

-- After the handler: a log that was handled is recorded.
unfoldable pub record_log : Bytes → ℕ → Log → Bool → Sql (Unit {0})
record_log addr_bytes block_number log handled =
    if handled
    then (with_i64 block_number_field block_number λ block.
        with_i64 log_index_field (index_of log) λ index.
          execute
            (put_log block (hash_of log) index addr_bytes (unwrap_or (get_elem? log.topics 0) [])))
    else give (ok tt)

-- What is done in the transaction.
unfoldable pub index_log : Alloy → Bytes → ℕ → Log → Sql (Unit {0})
index_log alloy addr_bytes block_number log = with_i64 block_number_field block_number λ block.
    execute (put_checkpoint block (unwrap_or log.block_hash (zeroes 32)))
    >> dispatch alloy log (record { block_number = block_number; addr_bytes = addr_bytes })
    >>= record_log addr_bytes block_number log

-- The log is passed over when it is in `indexed_logs`.
unfoldable pub index_new_log : Alloy → Bytes → ℕ → Log → Sql (Unit {0})
index_new_log alloy addr_bytes block_number log = with_i64 log_index_field (index_of log) λ index.
    fetch (is_indexed (hash_of log) index) >>= λ already_processed.
    if already_processed
    then give (ok tt)
    else transaction (index_log alloy addr_bytes block_number log)

-- One turn of the loop over the logs. An error is logged, and the loop goes on with the next log.
unfoldable pub process_log : Alloy → Bytes → Log → Db → Db
process_log alloy addr_bytes log db = elim log.block_number [
  | none ↦ db
  | some block_number ↦ (index_new_log alloy addr_bytes block_number log db).1
]

unfoldable pub process_logs : Alloy → Bytes → List Log → Db → Db
process_logs alloy addr_bytes [] db = db
process_logs alloy addr_bytes (log ∷ logs) db =
    process_logs alloy addr_bytes logs (process_log alloy addr_bytes log db)

-- The first and the last block that are asked for, when there are any; `(last_block + 1) as u64`.
unfoldable pub block_range : ℕ → ℕ → Option (ℕ × ℕ)
block_range last_block current_block =
    let start = last_block + 1 in
    if ltb current_block start then none else some (start, min (start + 50) current_block)
