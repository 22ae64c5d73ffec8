-- ===== src/Indexer/Finalization.antt =====
-- backend/indexer/src/finalization.rs
pub mod Laws
pub mod Progress
pub mod Requests
use omniscient.Prelude.{
  ℕ, suc, zero, ◌+◌, ◌-◌, Bool, true, false, not, Option, none, some, List, [], ◌∷◌, ◌++◌, filter,
  leb, ltb, ◌==◌, if◌then◌else◌,
}
use omniscient.Prelude.Integers.{ℤ}
use omniscient.Prelude.Result.{Result, ok, err}
use omniscient.Shared.Constants.{finality_blocks}
use omniscient.Shared.Domain.{bytes_eq}
use omniscient.Shared.Hex.{HexCodec, to_text}
use omniscient.Shared.Signing.{as_bytes}
use omniscient.Shared.Json.{Value, string, number, object, no_fields, entry}
use omniscient.Store.{
  Bytes, Checkpoint, Balance, Cursor, Tables, Db, Sql, execute, fetch, transaction, ◌>>=◌, ◌>>◌,
}
use omniscient.Store.Table.{find, update_where}
use omniscient.Indexer.{i64_limit}
use omniscient.Indexer.Cursor.{Contracts, is_cursor}
use omniscient.Indexer.Reorg.{rollback_unfinalized}

-- The body of a reconcile request.
pub record Reconcile : Type 0 where
  pub user : Bytes
  pub deposit : ℤ
  pub block_number : ℕ

-- The JSON of the body; how a BigDecimal is written is a parameter.
unfoldable pub payload_of : HexCodec → (ℤ → Value) → Reconcile → Value
payload_of hex deposit_value r = object (
    entry (as_bytes "user") (string (to_text hex r.user)) (
      entry (as_bytes "deposit") (deposit_value r.deposit)
        (entry (as_bytes "block_number") (number r.block_number) no_fields)))

-- The database, the requests that were sent, and whether the next ones succeed; when that list is
-- used up, all do.
pub record State : Type 0 where
  pub db : Db
  pub requests : List Reconcile
  pub failures : List Bool

-- `(start..=end)`
unfoldable pub blocks_from : ℕ → ℕ → List ℕ
blocks_from zero start = []
blocks_from (suc n) start = start ∷ blocks_from n (start + 1)

unfoldable pub finalized_blocks : ℕ → ℕ → ℕ → List ℕ
finalized_blocks start end current_block =
    filter (λ b. leb finality_blocks (current_block - b)) (blocks_from (end + 1 - start) start)

-- SELECT block_hash FROM reorg_checkpoints WHERE block_number = $1
unfoldable pub stored_hash : ℕ → Tables → Option Bytes
stored_hash block t = elim (find (λ c. c.block_number == block) t.checkpoints) [
  | none ↦ none
  | some c ↦ some c.block_hash
]

unfoldable pub finalize_checkpoint : ℕ → Tables → Tables
finalize_checkpoint block t = record t {
  checkpoints =
      update_where (λ c. c.block_number == block) (λ c. record c { is_finalized = true })
        t.checkpoints;
}

unfoldable pub move_cursor : Bytes → ℕ → Bytes → Tables → Tables
move_cursor addr block hash t = record t {
  cursors =
      update_where (is_cursor addr)
        (λ c. record c { last_finalized_block = block; last_finalized_block_hash = some hash })
        t.cursors;
}

-- The attempts of one request: up to three, until one succeeds.
unfoldable pub attempt : ℕ → Reconcile → State → State
attempt zero r s = s
attempt (suc n) r s =
    let s' = record s { requests = s.requests ++ r ∷ [] } in
    elim s.failures [
      | [] ↦ s'
      | false ∷ fs ↦ record s' { failures = fs }
      | true ∷ fs ↦ attempt n r (record s' { failures = fs })
    ]

abbrev pub request_of : Balance → Reconcile
request_of b = record {
  user = b.user_address;
  deposit = b.available_amount;
  block_number = b.finalized_block_number;
}

unfoldable pub post_all : List Balance → State → State
post_all [] s = s
post_all (b ∷ bs) s = post_all bs (attempt 3 (request_of b) s)

-- The transaction for one block.
unfoldable pub advance : Bytes → ℕ → Bytes → Sql (Unit {0})
advance addr block hash =
    transaction (execute (finalize_checkpoint block) >> execute (move_cursor addr block hash))

-- What follows a transaction that was committed.
unfoldable pub reconcile_block : Contracts → Bytes → ℕ → State → State
reconcile_block config addr block s =
    if bytes_eq addr config.custody_addr
    then (let r = fetch (λ t. filter (λ b. b.finalized_block_number == block) t.balances) s.db in
        elim r.0 [
          | err e ↦ record s { db = r.1 }
          | ok deposits ↦ post_all deposits (record s { db = r.1 })
        ])
    else s

-- Whether a stored hash says that the chain was reorganised.
abbrev pub differs : Option Bytes → Bytes → Bool
differs none hash = false
differs (some stored) hash = not (bytes_eq stored hash)

-- The body of the loop after the block's hash is there and the block is an i64.
unfoldable pub finalize_known : Contracts → Bytes → ℕ → Bytes → State → State
finalize_known config addr block hash s =
    let r = fetch (stored_hash block) s.db in
    elim r.0 [
      | err e ↦ record s { db = r.1 }
      | ok stored ↦
          if differs stored hash
          then record s { db = (rollback_unfinalized block r.1).1 }
          else (let a = advance addr block hash r.1 in
              elim a.0 [
                | err e ↦ record s { db = a.1 }
                | ok u ↦ reconcile_block config addr block (record s { db = a.1 })
              ])
    ]

-- `get_block` gives the hash of a block, if the provider answers.
unfoldable pub finalize_block : Contracts → Bytes → (ℕ → Option Bytes) → ℕ → State → State
finalize_block config addr get_block block s = elim (get_block block) [
  | none ↦ s
  | some hash ↦ if ltb block i64_limit then finalize_known config addr block hash s else s
]

unfoldable pub finalize_each : Contracts → Bytes → (ℕ → Option Bytes) → List ℕ → State → State
finalize_each config addr get_block [] s = s
finalize_each config addr get_block (b ∷ bs) s =
    finalize_each config addr get_block bs (finalize_block config addr get_block b s)

unfoldable pub finalize_blocks : Contracts → Bytes → (ℕ → Option Bytes) → ℕ → ℕ → ℕ → State → State
finalize_blocks config addr get_block start end current_block s =
    finalize_each config addr get_block (finalized_blocks start end current_block) s
