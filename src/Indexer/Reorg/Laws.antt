-- ===== src/Indexer/Reorg/Laws.antt =====
-- What a rollback takes away.
use omniscient.Prelude.{
  ℕ, ◌<◌, ◌≡◌, ◌≢◌, refl, arith, Bool, true, false, not, ◌&&◌, ◌||◌, List, [], ◌∷◌, filter, leb,
  ltb,
}
use omniscient.Prelude.Result.{ok}
use omniscient.Store.{Tables, Db, execute, transaction}
use omniscient.Indexer.{i64_limit}
use omniscient.Indexer.Reorg.{
  delete_checkpoints, delete_logs, delete_balances, delete_markets, rollback_unfinalized,
}

-- What stays: the rows of earlier blocks, and the checkpoints that are finalized.
unfoldable pub before : ℕ → Tables → Tables
before from t = record t {
  checkpoints = filter (λ c. ltb c.block_number from || c.is_finalized) t.checkpoints;
  logs = filter (λ l. ltb l.block_number from) t.logs;
  balances = filter (λ b. ltb b.finalized_block_number from) t.balances;
  markets = filter (λ m. ltb m.block_number from) t.markets;
}

filter-ext :
    {A : Type 0} (p q : A → Bool) (xs : List A) → ((x : A) → p x ≡ q x) → filter p xs ≡ filter q xs
filter-ext p q [] h = refl
filter-ext p q (x ∷ xs) h = ground (arith, h x, filter-ext p q xs h)

delete-before :
    (from : ℕ) (t : Tables)
    → delete_markets from (delete_balances from (delete_logs from (delete_checkpoints from t)))
      ≡ before from t
unfolding delete_markets delete_balances delete_logs delete_checkpoints before
delete-before from t =
    rw
      (
        filter-ext (λ c. not (leb from c.block_number && not c.is_finalized))
            (λ c. ltb c.block_number from || c.is_finalized) t.checkpoints
            (λ c. checkpoint c.block_number c.is_finalized),
        filter-ext (λ l. not (leb from l.block_number)) (λ l. ltb l.block_number from) t.logs
            (λ l. ground arith),
        filter-ext (λ b. not (leb from b.finalized_block_number))
            (λ b. ltb b.finalized_block_number from) t.balances (λ b. ground arith),
        filter-ext (λ m. not (leb from m.block_number)) (λ m. ltb m.block_number from) t.markets
            (λ m. ground arith),
      )
      refl
  where
    checkpoint : (n : ℕ) (f : Bool) → not (leb from n && not f) ≡ (ltb n from || f)
    checkpoint n true = ground arith
    checkpoint n false = ground arith

pub rollback_unfinalized_run :
    (from : ℕ) (db : Db)
    → from < i64_limit
    → db.refusals ≡ []
    → rollback_unfinalized from db ≡ (ok tt, record db { tables = before from db.tables })
unfolding rollback_unfinalized transaction execute
rollback_unfinalized_run from db h n = let d = delete-before from db.tables in ground arith

-- A rollback from an i64 block succeeds if the server refuses nothing. If it succeeds, the logs, the
-- balances and the markets of earlier blocks stay, and the checkpoints that are of an earlier block
-- or finalized, and no others; if it does not, all tables are as they were.
pub rollback_unfinalized_lem :
    (from : ℕ) (db : Db)
    → from < i64_limit
    → let r = rollback_unfinalized from db in
      (db.refusals ≡ [] → r.0 ≡ ok tt)
      × (r.0 ≡ ok tt → r.1.tables ≡ before from db.tables)
      × (r.0 ≢ ok tt → r.1.tables ≡ db.tables)
unfolding rollback_unfinalized transaction execute
rollback_unfinalized_lem from db h =
    let d = delete-before from db.tables in (ground arith, ground arith, ground arith)
