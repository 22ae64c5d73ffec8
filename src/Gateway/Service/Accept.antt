-- ===== src/Gateway/Service/Accept.antt =====
-- What accepting an order does to the balances, and what it takes.
use omniscient.Prelude.{
  ℕ, ◌≤◌, ◌<◌, ◌≡◌, ◌≢◌, ◌⊎◌, inl, inr, refl, true, false, Option, none, some, List, [], ◌∷◌, ◌++◌,
  filter, length, arith,
}
use omniscient.Prelude.Result.{Result, ok, err}
use omniscient.Shared.Domain.{Address, MarketId, OrderId, bytes_eq_iff}
use omniscient.Shared.Constants.{price_scale}
use omniscient.Shared.Order.{SignedOrder}
use omniscient.Shared.Signing.{Crypto, verify_order_signature, order_digest}
use omniscient.Store.{sqlx, execute, execute_count}
use omniscient.Gateway.Infra.{
  insert_order, insert_hold, reserve_collateral, release_collateral, ensure_user,
}
use omniscient.Gateway.Service.{
  OrderError, queue_full, insert_hold_error, Settings, State, validate_signed_order, try_send,
  store_order, place_command, accept_order,
}
use omniscient.Gateway.Service.Storing.{
  account, reservable, reserved, order_row, hold_row, restore, store_order_balances, store_order_ok,
}

-- The address that made a signature, if it can be recovered.
abbrev pub signer : Crypto → Settings → SignedOrder → Option (List ℕ)
signer crypto settings signed = elim (crypto.parse_signature signed.signature) [
  | none ↦ none
  | some sig ↦
      crypto.recover_address sig
        (order_digest crypto signed.order settings.chain_id settings.settlement_exchange_addr)
]

-- What a signed order that is valid has.
pub record IsSigned (crypto : Crypto) (settings : Settings) (now : ℕ) (signed : SignedOrder)
    : Type 0 where
  pub not_expired : now < signed.order.deadline
  pub price_pos : 0 < signed.order.price
  pub price_le : signed.order.price ≤ price_scale
  pub amount_pos : 0 < signed.order.amount
  pub signature_length : length signed.signature ≡ 65
  pub signed_by_maker : signer crypto settings signed ≡ some signed.order.maker.bytes

module _ (crypto : Crypto) (settings : Settings) (now : ℕ) (signed : SignedOrder) where
  validate-IsSigned :
      (a : Address)
      → validate_signed_order crypto settings now signed ≡ ok a
      → IsSigned crypto settings now signed × (a ≡ signed.order.maker)
  unfolding validate_signed_order verify_order_signature
  validate-IsSigned a h =
      let c = λ (r : List ℕ). bytes_eq_iff r signed.order.maker.bytes in grind (arith, bytes_eq_iff)

  validate-cases :
      IsSigned crypto settings now signed
      ⊎ ((e : OrderError) × (validate_signed_order crypto settings now signed ≡ err e))
  validate-cases = by_result (validate_signed_order crypto settings now signed) refl
    where
      by_result :
          (r : Result Address OrderError)
          → validate_signed_order crypto settings now signed ≡ r
          → IsSigned crypto settings now signed
            ⊎ ((e : OrderError) × (validate_signed_order crypto settings now signed ≡ err e))
      by_result (ok a) h = inl (validate-IsSigned a h).0
      by_result (err e) h = inr (e, h)

  IsSigned-validate :
      IsSigned crypto settings now signed
      → validate_signed_order crypto settings now signed ≡ ok signed.order.maker
  unfolding validate_signed_order verify_order_signature
  IsSigned-validate h =
      let c = bytes_eq_iff signed.order.maker.bytes signed.order.maker.bytes in ground arith

module _ (crypto : Crypto) (settings : Settings) (now : ℕ) (order_id : OrderId)
    (signed : SignedOrder) (market_id : MarketId) (s : State) where
  -- An order that is not valid changes nothing.
  pub accept_order-IsSigned :
      IsSigned crypto settings now signed
      ⊎ ((accept_order crypto settings now order_id signed market_id s).1 ≡ s)
  unfolding accept_order
  accept_order-IsSigned = elim (validate-cases crypto settings now signed) [
    | inl h ↦ inl h
    | inr (e, h) ↦ inr (ground arith)
  ]

  -- If the account that an order draws on has one row at most and the order is accepted,
  -- whatever the server refused: the order has not expired, its price and its amount are in
  -- range and its signature recovers to its maker; the collateral is moved from what is
  -- available to what is on hold, in an account that had it; the order is stored as open with
  -- nothing filled, the hold is stored, and the command to place the order is the last one in
  -- the matcher's queue.
  pub accept_order-ok :
      (id : OrderId)
      → length (filter (account signed.order) s.db.tables.balances) ≤ 1
      → let r = accept_order crypto settings now order_id signed market_id s in
        let t = s.db.tables in
        let t' = r.1.db.tables in
        r.0 ≡ ok id
        → IsSigned crypto settings now signed
          × (id ≡ order_id)
          × (length (filter (reservable signed.order) t.balances) ≢ 0)
          × (t'.balances ≡ reserved signed.order t.balances)
          × (t'.orders ≡ t.orders ++ order_row order_id signed market_id ∷ [])
          × (t'.holds ≡ t.holds ++ hold_row order_id signed ∷ [])
          × (r.1.queue ≡ s.queue ++ place_command order_id signed market_id ∷ [])
  unfolding accept_order try_send
  accept_order-ok id u h =
      let v = validate-cases crypto settings now signed in
      let b = store_order_balances order_id signed market_id s.db.tables s.db.refusals u in
      let k = store_order_ok order_id signed market_id s.db.tables s.db.refusals in ground arith

  -- If the account that an order draws on has one row at most: whatever the server refuses, the
  -- account has afterwards what it had, or its collateral is moved from what is available to
  -- what is on hold, and no other balance changes; if one statement at most is refused, then an
  -- order that is rejected, but for a full queue, leaves all balances as they were.
  pub accept_order-balances :
      length (filter (account signed.order) s.db.tables.balances) ≤ 1
      → let r = accept_order crypto settings now order_id signed market_id s in
        let bs = s.db.tables.balances in
        let bs' = r.1.db.tables.balances in
        ((bs' ≡ bs) ⊎ (bs' ≡ reserved signed.order bs))
        × (length (filter (λ b. b) s.db.refusals) ≤ 1
            → (e : OrderError) → r.0 ≡ err e
            → e ≢ queue_full
            → bs' ≡ bs)
  unfolding accept_order try_send
  accept_order-balances u =
      let b = store_order_balances order_id signed market_id s.db.tables s.db.refusals u in
      ground arith

  -- If the order is valid, its account has one row at most and has the collateral, and the
  -- server refuses the hold and nothing else, then the order is rejected and the balances and
  -- the queue are as before, but the order is stored as open.
  pub accept_order-leftover :
      length (filter (account signed.order) s.db.tables.balances) ≤ 1
      → IsSigned crypto settings now signed
      → length (filter (reservable signed.order) s.db.tables.balances) ≢ 0
      → s.db.refusals ≡ false ∷ false ∷ false ∷ true ∷ []
      → let r = accept_order crypto settings now order_id signed market_id s in
        let t' = r.1.db.tables in
        (r.0 ≡ err (insert_hold_error sqlx))
        × (t'.balances ≡ s.db.tables.balances)
        × (t'.orders ≡ s.db.tables.orders ++ order_row order_id signed market_id ∷ [])
        × (r.1.queue ≡ s.queue)
  unfolding accept_order store_order ensure_user reserve_collateral insert_order insert_hold
      release_collateral execute execute_count
  accept_order-leftover u v c n =
      let e = IsSigned-validate crypto settings now signed v in
      let f = restore order_id signed market_id s.db.tables u c in ground arith
