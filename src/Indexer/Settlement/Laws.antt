-- ===== src/Indexer/Settlement/Laws.antt =====
-- What an invalidated nonce does to the user and to the orders.
use omniscient.Prelude.{
  ℕ, ◌≤◌, ◌<◌, ◌≡◌, ◌≢◌, ◌↔◌, refl, arith, Bool, true, false, Option, none, some, List, [], ◌∷◌,
  if◌then◌else◌, length, get_elem?,
}
use omniscient.Prelude.Result.{ok}
use omniscient.Shared.Domain.{bytes_eq, bytes_eq_iff}
use omniscient.Store.{
  Bytes, User, OrderRow, OrderStatus, open_order, filled, cancelled, expired, Tables, Db, execute,
}
use omniscient.Store.Table.{find, upsert, update_where, find-upsert}
use omniscient.Indexer.{Log, HandlerCtx, Alloy, topic_address, i64_limit}
use omniscient.Indexer.Custody.Laws.{length-slice, amount_of}
use omniscient.Indexer.Settlement.{
  set_nonce, is_open, is_outdated, cancel_outdated, handle_nonce_invalidated,
}

-- The order that an order has become.
pub data IsAfter (user : Bytes) (nonce : ℕ) : OrderRow → OrderRow → Type 0 where
  gone :
      (o : OrderRow)
      → o.user_address ≡ user
      → o.nonce < nonce
      → o.status ≡ open_order
      → IsAfter user nonce o (record o { status = cancelled })
  kept :
      (o : OrderRow)
      → (o.user_address ≡ user → o.nonce < nonce → o.status ≢ open_order)
      → IsAfter user nonce o o

-- Row by row.
abbrev pub IsRowwise : (OrderRow → OrderRow → Type 0) → List OrderRow → List OrderRow → Type 0
IsRowwise R [] [] = Unit
IsRowwise R [] (y ∷ ys) = ⊥
IsRowwise R (x ∷ xs) [] = ⊥
IsRowwise R (x ∷ xs) (y ∷ ys) = R x y × IsRowwise R xs ys

is_open_iff : (s : OrderStatus) → (is_open s ≡ true) ↔ (s ≡ open_order)
is_open_iff open_order = (λ _. refl, λ _. refl)
is_open_iff filled = ground arith
is_open_iff cancelled = ground arith
is_open_iff expired = ground arith

is_outdated_iff :
    (user : Bytes) (nonce : ℕ) (o : OrderRow)
    → (is_outdated user nonce o ≡ true)
      ↔ ((o.user_address ≡ user) × (o.nonce < nonce) × (o.status ≡ open_order))
unfolding is_outdated
is_outdated_iff user nonce o =
    ground (arith, bytes_eq_iff o.user_address user, is_open_iff o.status)

outdated-IsAfter :
    (user : Bytes) (nonce : ℕ) (o : OrderRow)
    → IsAfter user nonce o (if is_outdated user nonce o then record o { status = cancelled } else o)
outdated-IsAfter user nonce o = by_test (is_outdated user nonce o) refl
  where
    by_test :
        (b : Bool)
        → is_outdated user nonce o ≡ b
        → IsAfter user nonce o (if b then record o { status = cancelled } else o)
    by_test true e = let i = (is_outdated_iff user nonce o).0 e in gone o i.0 i.1 i.2
    by_test false e =
        kept o (λ h k l. let i = (is_outdated_iff user nonce o).1 (h, k, l) in ground arith)

update_where-IsRowwise :
    (user : Bytes) (nonce : ℕ) (os : List OrderRow)
    → IsRowwise
        (IsAfter user nonce)
        os
        (update_where (is_outdated user nonce) (λ o. record o { status = cancelled }) os)
unfolding update_where
update_where-IsRowwise user nonce [] = tt
update_where-IsRowwise user nonce (o ∷ os) =
    (outdated-IsAfter user nonce o, update_where-IsRowwise user nonce os)

-- The cancellation nonce of a user, when there is a row.
unfoldable pub nonce_of : Bytes → Tables → Option ℕ
nonce_of user t = elim (find (λ u. bytes_eq u.address user) t.users) [
  | none ↦ none
  | some u ↦ some u.cancellation_nonce
]

module _ (alloy : Alloy) (log : Log) (ctx : HandlerCtx) (db : Db) (topic : Bytes)
    (h : get_elem? log.topics 1 ≡ some topic) (k : 32 ≤ length log.log_data)
    (l : amount_of alloy log < i64_limit) (n : db.refusals ≡ []) where
  handle_nonce_invalidated_run : handle_nonce_invalidated alloy log ctx db ≡ (
    ok true,
    record db {
      tables =
          cancel_outdated
            (topic_address topic)
            (amount_of alloy log)
            (set_nonce (topic_address topic) (amount_of alloy log) db.tables);
    },
  )
  unfolding handle_nonce_invalidated execute amount_of
  handle_nonce_invalidated_run = ground (arith, length-slice log.log_data k)

  -- If the server refuses nothing, an event with a second topic, 32 bytes of data and a nonce that is
  -- an i64 is handled: the nonce becomes the user's cancellation nonce; the user's open orders with a
  -- smaller nonce are cancelled, and every other order is as it was.
  pub handle_nonce_invalidated_lem :
      let r = handle_nonce_invalidated alloy log ctx db in
      (r.0 ≡ ok true)
      × (nonce_of (topic_address topic) r.1.tables ≡ some (amount_of alloy log))
      × IsRowwise
          (IsAfter (topic_address topic) (amount_of alloy log))
          db.tables.orders
          r.1.tables.orders
  unfolding set_nonce cancel_outdated nonce_of
  handle_nonce_invalidated_lem = rw (handle_nonce_invalidated_run) (
    refl,
    nonce_of-upsert (topic_address topic) (amount_of alloy log) db.tables.users,
    update_where-IsRowwise (topic_address topic) (amount_of alloy log) db.tables.orders,
  )
    where
      nonce_of-upsert :
          (user : Bytes) (nonce : ℕ) (us : List User)
          → elim (find
                (λ u. bytes_eq u.address user)
                (upsert
                  (λ u. bytes_eq u.address user)
                  (record { address = user; cancellation_nonce = nonce })
                  (λ u. record u { cancellation_nonce = nonce })
                  us))
              as (λ _. Option ℕ) [ none ↦ none | some u ↦ some u.cancellation_nonce ]
            ≡ some nonce
      nonce_of-upsert user nonce us =
          rw
            (find-upsert (λ u. bytes_eq u.address user)
              (record { address = user; cancellation_nonce = nonce })
              (λ u. record u { cancellation_nonce = nonce }) us ((bytes_eq_iff user user).1 refl)
              (λ u e. e))
            (ground arith)
