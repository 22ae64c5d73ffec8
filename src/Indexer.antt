-- ===== src/Indexer.antt =====
-- backend/indexer/src: what the event handlers share.
pub mod Custody
pub mod Oracle
pub mod Settlement
pub mod Events
pub mod Reorg
pub mod Cursor
pub mod Finalization
pub mod Pipeline
pub mod Loop
pub mod Abi
mod Tests
use omniscient.Prelude.{
  ℕ, suc, zero, ◌+◌, ◌-◌, ◌≡◌, ◌==◌, Option, none, some, List, [], ◌∷◌, ltb, if◌then◌else◌, length,
  get_elem?,
}
use omniscient.Prelude.Result.{Result, ok, err}
use omniscient.Store.{Bytes, Sql, Field, bytes_field, domain, Error}

-- `alloy::rpc::types::Log`: a topic has 32 bytes.
pub record Log : Type 0 where
  pub topics : List Bytes
  pub log_data : Bytes
  pub block_number : Option ℕ
  pub block_hash : Option Bytes
  pub transaction_hash : Option Bytes
  pub log_index : Option ℕ

pub record HandlerCtx : Type 0 where
  pub block_number : ℕ
  pub addr_bytes : Bytes

-- The signatures of events.rs
pub data Event : Type 0 where
  deposited withdrawn forced_withdrawal_executed operator_heartbeat
        operator_inactivity_threshold_updated fee_rates_updated nonce_invalidated outcome_resolved
        market_created outcome_proposed outcome_disputed dispute_resolved :
      Event

-- What is used of alloy: `U256::from_be_bytes`, and `topic_hash`, keccak256 of an event's signature.
pub record Alloy : Type 0 where
  pub from_be_bytes : Bytes → ℕ
  pub topic_hash : Event → Bytes

abbrev pub drop : ℕ → Bytes → Bytes
drop zero xs = xs
drop (suc n) [] = []
drop (suc n) (x ∷ xs) = drop n xs

abbrev pub take : ℕ → Bytes → Bytes
take zero xs = []
take (suc n) [] = []
take (suc n) (x ∷ xs) = x ∷ take n xs

-- `bytes[from..to]`, in range
unfoldable pub slice : ℕ → ℕ → Bytes → Bytes
slice from to bytes = take (to - from) (drop from bytes)

-- `topic.as_slice()[12..32]`
abbrev pub topic_address : Bytes → Bytes
topic_address topic = slice 12 32 topic

abbrev pub i64_limit : ℕ
i64_limit = 9_223_372_036_854_775_808

-- `i64::try_from(n).map_err(…)?`, and go on
abbrev pub with_i64 : {A : Type 0} → Field → ℕ → (ℕ → Sql A) → Sql A
with_i64 field n k db = if ltb n i64_limit then k n db else (err (domain field), db)

-- `data[from..from + 32].try_into()`, as a number, and go on
abbrev pub with_u256 : {A : Type 0} → Alloy → ℕ → Bytes → (ℕ → Sql A) → Sql A
with_u256 alloy from bytes k db =
    let word = slice from (from + 32) bytes in
    if length word == 32 then k (alloy.from_be_bytes word) db else (err (domain bytes_field), db)
