-- ===== src/Indexer/Reorg.antt =====
-- backend/indexer/src/reorg.rs
pub mod Laws
use omniscient.Prelude.{ℕ, Bool, true, false, not, ◌&&◌, leb}
use omniscient.Store.{
  Tables, Checkpoint, IndexedLog, Balance, Market, Sql, execute, ◌>>◌, transaction,
  from_block_field,
}
use omniscient.Store.Table.{delete_where}
use omniscient.Indexer.{with_i64}

unfoldable pub delete_checkpoints : ℕ → Tables → Tables
delete_checkpoints from t = record t {
  checkpoints = delete_where (λ c. leb from c.block_number && not c.is_finalized) t.checkpoints;
}

unfoldable pub delete_logs : ℕ → Tables → Tables
delete_logs from t = record t { logs = delete_where (λ l. leb from l.block_number) t.logs }

unfoldable pub delete_balances : ℕ → Tables → Tables
delete_balances from t = record t {
  balances = delete_where (λ b. leb from b.finalized_block_number) t.balances;
}

unfoldable pub delete_markets : ℕ → Tables → Tables
delete_markets from t = record t { markets = delete_where (λ m. leb from m.block_number) t.markets }

unfoldable pub rollback_unfinalized : ℕ → Sql (Unit {0})
rollback_unfinalized from_block = with_i64 from_block_field from_block λ from. transaction (
    execute (delete_checkpoints from)
    >> execute (delete_logs from)
    >> execute (delete_balances from)
    >> execute (delete_markets from))
