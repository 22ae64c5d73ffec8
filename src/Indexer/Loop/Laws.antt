-- ===== src/Indexer/Loop/Laws.antt =====
-- What every round of the indexer keeps true.
use omniscient.Prelude.{
  ℕ, ◌+◌, ◌≤◌, ◌≡◌, refl, sym, subst, arith, Bool, true, false, Option, none, some, List, [], ◌∷◌,
  ltb, ◌==◌, if◌then◌else◌, get_elem?,
}
use omniscient.Prelude.Result.{Result, ok, err}
use omniscient.Store.{
  Bytes, Checkpoint, Cursor, Tables, Db, Sql, Error, domain, block_number_field, log_index_field,
  execute, fetch, transaction, ◌>>=◌, ◌>>◌, give,
}
use omniscient.Store.Table.{All-upsert}
use omniscient.Store.Keeps.{
  Keeps, execute-Keeps, then-Keeps, fetch-Keeps, bind-Keeps, if-Keeps, transaction-Keeps,
}
use omniscient.Indexer.{Log, Alloy, HandlerCtx, i64_limit}
use omniscient.Indexer.Events.{dispatch}
use omniscient.Indexer.Events.Framed.{IsFramed, dispatch-IsFramed}
use omniscient.Indexer.Cursor.{Contracts}
use omniscient.Indexer.Finalization.{State, finalize_blocks}
use omniscient.Indexer.Finalization.Laws.{IsDeep, IsDeep-same, finalize_blocks-IsDeep}
use omniscient.Indexer.Pipeline.{
  unwrap_or, zeroes, hash_of, index_of, is_indexed, put_checkpoint, put_log, record_log, index_log,
  index_new_log, process_log, process_logs, block_range,
}
use omniscient.Indexer.Loop.{Provider, index_contract, index_contracts, index_round}

module _ (current_block : ℕ) where
  abbrev J : Tables → Type 0
  J = IsDeep current_block

  put_checkpoint-IsDeep :
      (block : ℕ) (hash : Bytes) (t : Tables) → J t → J (put_checkpoint block hash t)
  unfolding put_checkpoint
  put_checkpoint-IsDeep block hash t j = record {
    checkpoints_deep =
        All-upsert (λ c. c.is_finalized ≡ true → c.block_number + 12 ≤ current_block)
          (λ c. c.block_number == block)
          (record { block_number = block; block_hash = hash; is_finalized = false })
          (λ c. if c.is_finalized then c else record c { block_hash = hash; is_finalized = false })
          t.checkpoints (λ e. cc) (λ c k e. kept c k e) j.checkpoints_deep;
    cursors_deep = j.cursors_deep;
  }
    where
      kept :
          (c : Checkpoint)
          → (c.is_finalized ≡ true → c.block_number + 12 ≤ current_block)
          → let d =
              if c.is_finalized then c else record c { block_hash = hash; is_finalized = false } in
            d.is_finalized ≡ true → d.block_number + 12 ≤ current_block
      kept c k e = ground arith

  module _ (alloy : Alloy) where
    dispatch-Keeps : (log : Log) (ctx : HandlerCtx) → Keeps J (dispatch alloy log ctx)
    unfolding IsFramed
    dispatch-Keeps log ctx db j =
        let f = dispatch-IsFramed alloy log ctx db in
        IsDeep-same current_block db.tables (dispatch alloy log ctx db).1.tables f.0 f.1 j

    record_log-Keeps :
        (addr : Bytes) (block : ℕ) (log : Log) (handled : Bool)
        → Keeps J (record_log addr block log handled)
    unfolding record_log put_log
    record_log-Keeps addr block log false = λ db j. j
    record_log-Keeps addr block log true =
        let topic0 = unwrap_or (get_elem? log.topics 0) [] in
        let put = put_log block (hash_of log) (index_of log) addr topic0 in
        if-Keeps J (ltb block i64_limit)
          (λ db.
            if ltb (index_of log) i64_limit
            then execute put db
            else (err (domain log_index_field), db))
          (λ db. (err (domain block_number_field), db))
          (if-Keeps J (ltb (index_of log) i64_limit) (execute put)
            (λ db. (err (domain log_index_field), db))
            (execute-Keeps J put (λ t j. IsDeep-same current_block t (put t) refl refl j))
            (λ db j. j))
          (λ db j. j)

    index_log-Keeps :
        (addr : Bytes) (block : ℕ) (log : Log) → Keeps J (index_log alloy addr block log)
    unfolding index_log
    index_log-Keeps addr block log =
        let ctx : HandlerCtx = record { block_number = block; addr_bytes = addr } in
        let hash = unwrap_or log.block_hash (zeroes 32) in
        let rest = dispatch alloy log ctx >>= record_log addr block log in
        if-Keeps J (ltb block i64_limit) (execute (put_checkpoint block hash) >> rest)
          (λ db. (err (domain block_number_field), db))
          (then-Keeps J (put_checkpoint block hash) rest (put_checkpoint-IsDeep block hash) (
            bind-Keeps J (dispatch alloy log ctx) (record_log addr block log)
              (dispatch-Keeps log ctx) (record_log-Keeps addr block log)))
          (λ db j. j)

    index_new_log-Keeps :
        (addr : Bytes) (block : ℕ) (log : Log) → Keeps J (index_new_log alloy addr block log)
    unfolding index_new_log
    index_new_log-Keeps addr block log =
        if-Keeps J (ltb (index_of log) i64_limit)
          (fetch (is_indexed (hash_of log) (index_of log)) >>= next)
          (λ db. (err (domain log_index_field), db))
          (bind-Keeps J (fetch (is_indexed (hash_of log) (index_of log))) next
            (fetch-Keeps J (is_indexed (hash_of log) (index_of log))) by_test)
          (λ db j. j)
      where
        next : Bool → Sql (Unit {0})
        next already_processed =
            if already_processed then give (ok tt) else transaction (index_log alloy addr block log)

        by_test : (b : Bool) → Keeps J (next b)
        by_test true = λ db j. j
        by_test false =
            transaction-Keeps J (index_log alloy addr block log) (index_log-Keeps addr block log)

    process_log-Keeps :
        (addr : Bytes) (log : Log) (db : Db)
        → J db.tables
        → J (process_log alloy addr log db).tables
    unfolding process_log
    process_log-Keeps addr log db j = by_number log.block_number
      where
        by_number :
            (o : Option ℕ)
            → J
                (elim o as (λ _. Db) [
                  | none ↦ db
                  | some block ↦ (index_new_log alloy addr block log db).1
                ]).tables
        by_number none = j
        by_number (some block) = index_new_log-Keeps addr block log db j

    process_logs-Keeps :
        (addr : Bytes) (logs : List Log) (db : Db)
        → J db.tables
        → J (process_logs alloy addr logs db).tables
    unfolding process_logs
    process_logs-Keeps addr [] db j = j
    process_logs-Keeps addr (log ∷ logs) db j =
        process_logs-Keeps addr logs (process_log alloy addr log db)
          (process_log-Keeps addr log db j)

    module _ (config : Contracts) (provider : Provider) where
      index_contract-Keeps :
          (c : Cursor) (s : State)
          → J s.db.tables
          → J (index_contract alloy config provider current_block c s).db.tables
      unfolding index_contract
      index_contract-Keeps c s j = by_range (block_range c.last_finalized_block current_block)
        where
          by_logs :
              (start end : ℕ) (o : Option (List Log))
              → J
                  (elim o as (λ _. State) [
                    | none ↦ s
                    | some logs ↦
                        finalize_blocks config c.contract_address provider.get_block start end
                          current_block
                          (record s { db = process_logs alloy c.contract_address logs s.db })
                  ]).db.tables
          by_logs start end none = j
          by_logs start end (some logs) =
              finalize_blocks-IsDeep current_block config c.contract_address provider.get_block
                start end (record s { db = process_logs alloy c.contract_address logs s.db })
                (process_logs-Keeps c.contract_address logs s.db j)

          by_range :
              (o : Option (ℕ × ℕ))
              → J
                  (elim o as (λ _. State) [
                    | none ↦ s
                    | some (start, end) ↦ elim (provider.get_logs c.contract_address start end) [
                      | none ↦ s
                      | some logs ↦
                          finalize_blocks config c.contract_address provider.get_block start end
                            current_block
                            (record s { db = process_logs alloy c.contract_address logs s.db })
                    ]
                  ]).db.tables
          by_range none = j
          by_range (some (start, end)) =
              by_logs start end (provider.get_logs c.contract_address start end)

      index_contracts-Keeps :
          (cs : List Cursor) (s : State)
          → J s.db.tables
          → J (index_contracts alloy config provider current_block cs s).db.tables
      unfolding index_contracts
      index_contracts-Keeps [] s j = j
      index_contracts-Keeps (c ∷ cs) s j =
          index_contracts-Keeps cs (index_contract alloy config provider current_block c s)
            (index_contract-Keeps c s j)

-- Whatever logs and hashes the provider gives and whatever the server refuses: if the finalized
-- checkpoints and the last finalized blocks of the contracts are at least twelve blocks behind the
-- newest block, or a contract has none yet, then they are so after the round.
pub index_round-IsDeep :
    (alloy : Alloy) (config : Contracts) (provider : Provider) (current_block : ℕ) (s : State)
    → provider.get_block_number ≡ some current_block
    → IsDeep current_block s.db.tables
    → IsDeep current_block (index_round alloy config provider s).db.tables
unfolding index_round
index_round-IsDeep alloy config provider current_block s e j =
    subst (λ (o : Option ℕ). IsDeep current_block (round o).db.tables) (sym e)
      (by_cursors (fetch (λ t. t.cursors) s.db)
        (fetch-Keeps (IsDeep current_block) (λ t. t.cursors) s.db j))
  where
    rest : ℕ → Result (List Cursor) Error × Db → State
    rest current_block r = elim r.0 [
      | err e ↦ record s { db = r.1 }
      | ok cursors ↦
          index_contracts alloy config provider current_block cursors (record s { db = r.1 })
    ]

    round : Option ℕ → State
    round o = elim o [
      | none ↦ s
      | some current_block ↦ rest current_block (fetch (λ t. t.cursors) s.db)
    ]

    by_cursors :
        (r : Result (List Cursor) Error × Db)
        → IsDeep current_block r.1.tables
        → IsDeep current_block (rest current_block r).db.tables
    by_cursors (err e, db') k = k
    by_cursors (ok cursors, db') k =
        index_contracts-Keeps current_block alloy config provider cursors (record s { db = db' }) k
