-- ===== src/Indexer/Settlement.antt =====
-- backend/indexer/src/handlers/settlement.rs
pub mod Laws
use omniscient.Prelude.{
  ℕ, Bool, true, false, ◌&&◌, Option, none, some, ltb, if◌then◌else◌, length, get_elem?,
}
use omniscient.Prelude.Result.{Result, ok, err}
use omniscient.Shared.Domain.{bytes_eq}
use omniscient.Store.{
  Bytes, User, OrderRow, OrderStatus, open_order, filled, cancelled, expired, Tables, Sql, give,
  execute, ◌>>◌, nonce_field,
}
use omniscient.Store.Table.{upsert, update_where}
use omniscient.Indexer.{Log, HandlerCtx, Alloy, topic_address, with_i64, with_u256}

unfoldable pub set_nonce : Bytes → ℕ → Tables → Tables
set_nonce user nonce t = record t {
  users =
      upsert (λ u. bytes_eq u.address user) (record { address = user; cancellation_nonce = nonce })
        (λ u. record u { cancellation_nonce = nonce }) t.users;
}

abbrev pub is_open : OrderStatus → Bool
is_open open_order = true
is_open _ = false

-- The orders of this user that are open and have a smaller nonce.
unfoldable pub is_outdated : Bytes → ℕ → OrderRow → Bool
is_outdated user nonce o = bytes_eq o.user_address user && ltb o.nonce nonce && is_open o.status

unfoldable pub cancel_outdated : Bytes → ℕ → Tables → Tables
cancel_outdated user nonce t = record t {
  orders = update_where (is_outdated user nonce) (λ o. record o { status = cancelled }) t.orders;
}

unfoldable pub handle_nonce_invalidated : Alloy → Log → HandlerCtx → Sql Bool
handle_nonce_invalidated alloy log ctx = elim (get_elem? log.topics 1) [
  | none ↦ give (ok false)
  | some user ↦
      if ltb (length log.log_data) 32
      then give (ok false)
      else with_u256 alloy 0 log.log_data λ new_nonce. with_i64 nonce_field new_nonce λ nonce.
        execute (set_nonce (topic_address user) nonce)
        >> execute (cancel_outdated (topic_address user) nonce)
        >> give (ok true)
]
