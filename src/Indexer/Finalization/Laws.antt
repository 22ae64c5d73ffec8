-- ===== src/Indexer/Finalization/Laws.antt =====
-- What is finalized is deep enough in the chain.
use omniscient.Prelude.{
  ℕ, suc, zero, ◌+◌, ◌-◌, ◌≤◌, ◌≡◌, ◌⊎◌, inr, refl, sym, subst, ◌∙◌, arith, Bool, true, false, not,
  ◌&&◌, Option, none, some, List, [], ◌∷◌, ◌++◌, All, All-filter, filter, leb, ltb, ◌==◌,
  if◌then◌else◌,
}
use omniscient.Prelude.Result.{Result, ok, err}
use omniscient.Shared.Constants.{finality_blocks}
use omniscient.Shared.Domain.{bytes_eq}
use omniscient.Store.{
  Bytes, Balance, Tables, Db, Sql, Error, domain, from_block_field, execute, fetch, transaction,
  ◌>>◌,
}
use omniscient.Store.Table.{All-update_where}
use omniscient.Store.Keeps.{
  Keeps, execute-Keeps, fetch-Keeps, then-Keeps, if-Keeps, transaction-Keeps,
}
use omniscient.Indexer.{i64_limit}
use omniscient.Indexer.Cursor.{Contracts, is_cursor}
use omniscient.Indexer.Reorg.{
  delete_checkpoints, delete_logs, delete_balances, delete_markets, rollback_unfinalized,
}
use omniscient.Indexer.Finalization.{
  State, Reconcile, request_of, blocks_from, finalized_blocks, stored_hash, finalize_checkpoint,
  move_cursor, attempt, post_all, advance, reconcile_block, differs, finalize_known, finalize_block,
  finalize_each, finalize_blocks,
}

-- The finalized checkpoints, and the last finalized block of each contract that has one, are at
-- least twelve blocks behind.
pub record IsDeep (current_block : ℕ) (t : Tables) : Type 0 where
  pub checkpoints_deep :
      All (λ c. c.is_finalized ≡ true → c.block_number + 12 ≤ current_block) t.checkpoints
  pub cursors_deep :
      All
        (λ c. (c.last_finalized_block ≡ 0) ⊎ (c.last_finalized_block + 12 ≤ current_block))
        t.cursors

attempt_db :
    (n : ℕ) (r : Reconcile) (db : Db) (rs : List Reconcile) (fs : List Bool)
    → (attempt n r (record { db = db; requests = rs; failures = fs })).db ≡ db
unfolding attempt
attempt_db zero r db rs fs = refl
attempt_db (suc n) r db rs [] = refl
attempt_db (suc n) r db rs (false ∷ fs) = refl
attempt_db (suc n) r db rs (true ∷ fs) = attempt_db n r db (rs ++ r ∷ []) fs

-- The requests leave the database alone.
pub post_all_db : (bs : List Balance) (s : State) → (post_all bs s).db ≡ s.db
unfolding post_all
post_all_db [] s = refl
post_all_db (b ∷ bs) s =
    post_all_db bs (attempt 3 (request_of b) s)
    ∙ attempt_db 3 (request_of b) s.db s.requests s.failures

module _ (current_block : ℕ) where
  abbrev pub J : Tables → Type 0
  J = IsDeep current_block

  -- It is about the checkpoints and the cursors alone.
  pub IsDeep-same :
      (t t' : Tables) → t'.checkpoints ≡ t.checkpoints → t'.cursors ≡ t.cursors → J t → J t'
  IsDeep-same t t' e f j = record {
    checkpoints_deep =
        subst (All (λ c. c.is_finalized ≡ true → c.block_number + 12 ≤ current_block)) (sym e)
          j.checkpoints_deep;
    cursors_deep =
        subst
          (All (λ c. (c.last_finalized_block ≡ 0) ⊎ (c.last_finalized_block + 12 ≤ current_block)))
          (sym f) j.cursors_deep;
  }

  rollback_unfinalized-IsDeep : (from : ℕ) → Keeps J (rollback_unfinalized from)
  unfolding rollback_unfinalized delete_checkpoints delete_logs delete_balances delete_markets
  rollback_unfinalized-IsDeep from =
      if-Keeps J (ltb from i64_limit)
        (transaction (execute (delete_checkpoints from) >> after_checkpoints))
        (λ db. (err (domain from_block_field), db))
        (transaction-Keeps J (execute (delete_checkpoints from) >> after_checkpoints) (
          then-Keeps J (delete_checkpoints from) after_checkpoints fewer (
            then-Keeps J (delete_logs from) after_logs
              (λ t j. IsDeep-same t (delete_logs from t) refl refl j)
              (then-Keeps J (delete_balances from) (execute (delete_markets from))
                (λ t j. IsDeep-same t (delete_balances from t) refl refl j)
                (execute-Keeps J (delete_markets from)
                  (λ t j. IsDeep-same t (delete_markets from t) refl refl j))))))
        (λ db j. j)
    where
      after_logs : Sql (Unit {0})
      after_logs = execute (delete_balances from) >> execute (delete_markets from)

      after_checkpoints : Sql (Unit {0})
      after_checkpoints = execute (delete_logs from) >> after_logs

      fewer : (t : Tables) → J t → J (delete_checkpoints from t)
      fewer t j = record {
        checkpoints_deep =
            All-filter (λ c. c.is_finalized ≡ true → c.block_number + 12 ≤ current_block)
              (λ c. not (leb from c.block_number && not c.is_finalized)) t.checkpoints
              j.checkpoints_deep;
        cursors_deep = j.cursors_deep;
      }

  module _ (config : Contracts) (addr : Bytes) where
    advance-IsDeep :
        (block : ℕ) (hash : Bytes) → block + 12 ≤ current_block → Keeps J (advance addr block hash)
    unfolding advance finalize_checkpoint move_cursor
    advance-IsDeep block hash h =
        transaction-Keeps J
          (execute (finalize_checkpoint block) >> execute (move_cursor addr block hash))
          (then-Keeps J (finalize_checkpoint block) (execute (move_cursor addr block hash))
            (λ t j. record {
              checkpoints_deep =
                  All-update_where
                    (λ c. c.is_finalized ≡ true → c.block_number + 12 ≤ current_block)
                    (λ c. c.block_number == block) (λ c. record c { is_finalized = true })
                    t.checkpoints (λ c e k l. ground arith) j.checkpoints_deep;
              cursors_deep = j.cursors_deep;
            })
            (execute-Keeps J (move_cursor addr block hash) (λ t j. record {
              checkpoints_deep = j.checkpoints_deep;
              cursors_deep =
                  All-update_where
                    (λ c.
                      (c.last_finalized_block ≡ 0) ⊎ (c.last_finalized_block + 12 ≤ current_block))
                    (is_cursor addr)
                    (λ c. record c {
                      last_finalized_block = block;
                      last_finalized_block_hash = some hash;
                    })
                    t.cursors (λ c e k. inr h) j.cursors_deep;
            })))

    reconcile_block-IsDeep :
        (block : ℕ) (s : State) → J s.db.tables → J (reconcile_block config addr block s).db.tables
    unfolding reconcile_block
    reconcile_block-IsDeep block s j =
        by_test (bytes_eq addr config.custody_addr) (fetch deposits s.db)
          (fetch-Keeps J deposits s.db j)
      where
        deposits : Tables → List Balance
        deposits t = filter (λ b. b.finalized_block_number == block) t.balances

        by_test :
            (c : Bool) (r : Result (List Balance) Error × Db)
            → J r.1.tables
            → J
                (if c
                  then (elim r.0 as (λ _. State) [
                    | err e ↦ record s { db = r.1 }
                    | ok ds ↦ post_all ds (record s { db = r.1 })
                  ])
                  else s).db.tables
        by_test false r k = j
        by_test true (err e, db') k = k
        by_test true (ok ds, db') k =
            subst (λ (db : Db). J db.tables) (sym (post_all_db ds (record s { db = db' }))) k

    finalize_known-IsDeep :
        (block : ℕ) (hash : Bytes) (s : State)
        → block + 12 ≤ current_block
        → J s.db.tables
        → J (finalize_known config addr block hash s).db.tables
    unfolding finalize_known
    finalize_known-IsDeep block hash s h j =
        by_stored (fetch (stored_hash block) s.db) (fetch-Keeps J (stored_hash block) s.db j)
      where
        by_advance :
            (a : Result (Unit {0}) Error × Db)
            → J a.1.tables
            → J
                (elim a.0 as (λ _. State) [
                  | err e ↦ record s { db = a.1 }
                  | ok u ↦ reconcile_block config addr block (record s { db = a.1 })
                ]).db.tables
        by_advance (err e, db') k = k
        by_advance (ok u, db') k = reconcile_block-IsDeep block (record s { db = db' }) k

        by_test :
            (c : Bool) (db' : Db)
            → J db'.tables
            → J
                (if c
                  then record s { db = (rollback_unfinalized block db').1 }
                  else (elim (advance addr block hash db').0 as (λ _. State) [
                    | err e ↦ record s { db = (advance addr block hash db').1 }
                    | ok u ↦
                        reconcile_block config addr block
                          (record s { db = (advance addr block hash db').1 })
                  ])).db.tables
        by_test true db' k = rollback_unfinalized-IsDeep block db' k
        by_test false db' k =
            by_advance (advance addr block hash db') (advance-IsDeep block hash h db' k)

        by_stored :
            (r : Result (Option Bytes) Error × Db)
            → J r.1.tables
            → J
                (elim r.0 as (λ _. State) [
                  | err e ↦ record s { db = r.1 }
                  | ok stored ↦
                      if differs stored hash
                      then record s { db = (rollback_unfinalized block r.1).1 }
                      else (elim (advance addr block hash r.1).0 as (λ _. State) [
                        | err e ↦ record s { db = (advance addr block hash r.1).1 }
                        | ok u ↦
                            reconcile_block config addr block
                              (record s { db = (advance addr block hash r.1).1 })
                      ])
                ]).db.tables
        by_stored (err e, db') k = k
        by_stored (ok stored, db') k = by_test (differs stored hash) db' k

    module _ (get_block : ℕ → Option Bytes) where
      finalize_block-IsDeep :
          (block : ℕ) (s : State)
          → block + 12 ≤ current_block
          → J s.db.tables
          → J (finalize_block config addr get_block block s).db.tables
      unfolding finalize_block
      finalize_block-IsDeep block s h j = by_hash (get_block block) (ltb block i64_limit)
        where
          by_hash :
              (o : Option Bytes) (c : Bool)
              → J
                  (elim o as (λ _. State) [
                    | none ↦ s
                    | some hash ↦ if c then finalize_known config addr block hash s else s
                  ]).db.tables
          by_hash none c = j
          by_hash (some hash) true = finalize_known-IsDeep block hash s h j
          by_hash (some hash) false = j

      finalize_each-IsDeep :
          (bs : List ℕ) (s : State)
          → All (λ b. b + 12 ≤ current_block) bs
          → J s.db.tables
          → J (finalize_each config addr get_block bs s).db.tables
      unfolding finalize_each
      finalize_each-IsDeep [] s h j = j
      finalize_each-IsDeep (b ∷ bs) s h j =
          finalize_each-IsDeep bs (finalize_block config addr get_block b s) h.1
            (finalize_block-IsDeep b s h.0 j)

      deep_enough :
          (bs : List ℕ)
          → All
              (λ b. b + 12 ≤ current_block)
              (filter (λ b. leb finality_blocks (current_block - b)) bs)
      deep_enough [] = tt
      deep_enough (b ∷ bs) = ground (arith, deep_enough bs)

      pub finalize_blocks-IsDeep :
          (start end : ℕ) (s : State)
          → J s.db.tables
          → J (finalize_blocks config addr get_block start end current_block s).db.tables
      unfolding finalize_blocks finalized_blocks
      finalize_blocks-IsDeep start end s j =
          finalize_each-IsDeep (finalized_blocks start end current_block) s
            (deep_enough (blocks_from (end + 1 - start) start)) j
