-- ===== src/Indexer/Custody.antt =====
-- backend/indexer/src/handlers/custody.rs
pub mod Laws
use omniscient.Prelude.{
  ℕ, Bool, true, false, ◌&&◌, Option, none, some, List, [], ◌∷◌, ltb, if◌then◌else◌, length,
  get_elem?,
}
use omniscient.Prelude.Integers.{ℤ, pos, negsuc, add_nat, sub_nat}
use omniscient.Prelude.Result.{Result, ok, err}
use omniscient.Shared.Domain.{bytes_eq}
use omniscient.Shared.Order.{AssetType, usdc, ctf}
use omniscient.Store.{Bytes, User, Balance, Tables, Sql, give, execute, ◌>>◌, block_number_field}
use omniscient.Store.Table.{upsert, insert_new}
use omniscient.Indexer.{Log, HandlerCtx, Alloy, topic_address, with_i64, with_u256}

-- The conflict with the primary key of `balances`, for `(user, 'usdc', NULL)`.
unfoldable pub is_usdc_of : Bytes → Balance → Bool
is_usdc_of user b =
    bytes_eq b.user_address user
    && (elim b.asset_type [ usdc ↦ true | ctf ↦ false ])
    && (elim b.position_id [ none ↦ true | some p ↦ false ])

abbrev pub usdc_row : Bytes → ℕ → ℕ → Balance
usdc_row user amount block = record {
  user_address = user;
  asset_type = usdc;
  position_id = none;
  available_amount = pos amount;
  hold_amount = 0;
  finalized_block_number = block;
}

-- INSERT INTO users (address) … ON CONFLICT DO NOTHING
unfoldable pub ensure_user_row : Bytes → Tables → Tables
ensure_user_row user t = record t {
  users =
      insert_new (λ u. bytes_eq u.address user) (record { address = user; cancellation_nonce = 0 })
        t.users;
}

unfoldable pub credit_usdc : Bytes → ℕ → ℕ → Tables → Tables
credit_usdc user amount block t = record t {
  balances =
      upsert (is_usdc_of user) (usdc_row user amount block)
        (λ b. record b {
          available_amount = add_nat b.available_amount amount;
          finalized_block_number = block;
        })
        t.balances;
}

unfoldable pub debit_usdc : Bytes → ℕ → ℕ → Tables → Tables
debit_usdc user amount block t = record t {
  balances =
      upsert (is_usdc_of user) (usdc_row user amount block)
        (λ b. record b {
          available_amount = sub_nat b.available_amount amount;
          finalized_block_number = block;
        })
        t.balances;
}

unfoldable pub handle_deposited : Alloy → Log → HandlerCtx → Sql Bool
handle_deposited alloy log ctx = elim (get_elem? log.topics 1) [
  | none ↦ give (ok false)
  | some user ↦
      if ltb (length log.log_data) 32
      then give (ok false)
      else with_u256 alloy 0 log.log_data λ amount.
        execute (ensure_user_row (topic_address user))
        >> with_i64 block_number_field ctx.block_number
            λ block. execute (credit_usdc (topic_address user) amount block) >> give (ok true)
]

unfoldable pub handle_withdrawn : Alloy → Log → HandlerCtx → Sql Bool
handle_withdrawn alloy log ctx = elim (get_elem? log.topics 1) [
  | none ↦ give (ok false)
  | some account ↦
      if ltb (length log.log_data) 64
      then give (ok false)
      else with_u256 alloy 0 log.log_data λ amount.
        with_i64 block_number_field ctx.block_number
          λ block. execute (debit_usdc (topic_address account) amount block) >> give (ok true)
]

unfoldable pub handle_forced_withdrawal_executed : Alloy → Log → HandlerCtx → Sql Bool
handle_forced_withdrawal_executed alloy log ctx = elim (get_elem? log.topics 1) [
  | none ↦ give (ok false)
  | some account ↦
      if ltb (length log.log_data) 32
      then give (ok false)
      else with_u256 alloy 0 log.log_data λ amount.
        with_i64 block_number_field ctx.block_number
          λ block. execute (debit_usdc (topic_address account) amount block) >> give (ok true)
]

-- The three handlers that only log what they read.
unfoldable pub handle_operator_heartbeat : Alloy → Log → HandlerCtx → Sql Bool
handle_operator_heartbeat alloy log ctx =
    if ltb (length log.log_data) 32
    then give (ok false)
    else with_u256 alloy 0 log.log_data λ timestamp. give (ok true)

unfoldable pub handle_operator_inactivity_threshold_updated : Alloy → Log → HandlerCtx → Sql Bool
handle_operator_inactivity_threshold_updated alloy log ctx =
    if ltb (length log.log_data) 32
    then give (ok false)
    else with_u256 alloy 0 log.log_data λ new_threshold. give (ok true)

unfoldable pub handle_fee_rates_updated : Alloy → Log → HandlerCtx → Sql Bool
handle_fee_rates_updated alloy log ctx =
    if ltb (length log.log_data) 64
    then give (ok false)
    else with_u256 alloy 0 log.log_data
        λ taker_fee. with_u256 alloy 32 log.log_data λ maker_rebate. give (ok true)
