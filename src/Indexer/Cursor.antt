-- ===== src/Indexer/Cursor.antt =====
-- backend/indexer/src/cursor.rs
pub mod Laws
use omniscient.Prelude.{ℕ, Bool, Option, none, List, [], ◌∷◌}
use omniscient.Prelude.Result.{ok}
use omniscient.Shared.Domain.{bytes_eq}
use omniscient.Store.{Bytes, Cursor, Tables, Sql, give, execute, ◌>>=◌, ◌>>◌}
use omniscient.Store.Table.{insert_new}

-- The settings that are used, of `AppConfig`.
pub record Contracts : Type 0 where
  pub custody_addr : Bytes
  pub settlement_exchange_addr : Bytes
  pub oracle_addr : Bytes

abbrev pub is_cursor : Bytes → Cursor → Bool
is_cursor addr c = bytes_eq c.contract_address addr

abbrev pub new_cursor : Bytes → Cursor
new_cursor addr = record {
  contract_address = addr;
  last_finalized_block = 0;
  last_finalized_block_hash = none;
}

unfoldable pub ensure_cursor : Bytes → Tables → Tables
ensure_cursor addr t = record t {
  cursors = insert_new (is_cursor addr) (new_cursor addr) t.cursors;
}

-- The loop over the addresses.
unfoldable pub ensure_each : List Bytes → Sql (Unit {0})
ensure_each [] = give (ok tt)
ensure_each (addr ∷ addrs) = execute (ensure_cursor addr) >> ensure_each addrs

unfoldable pub ensure_cursors : Contracts → Sql (Unit {0})
ensure_cursors config =
    ensure_each (config.custody_addr ∷ config.settlement_exchange_addr ∷ config.oracle_addr ∷ [])
