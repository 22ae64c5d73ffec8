-- ===== src/Gateway/Service/Storing.antt =====
-- What the statements of `accept_order` do, and where the server refuses one.
use omniscient.Prelude.{
  ℕ, ◌≤◌, ◌≡◌, ◌≢◌, ◌⊎◌, Bool, true, false, List, [], ◌∷◌, ◌++◌, filter, length, arith,
}
use omniscient.Prelude.Result.{ok}
use omniscient.Shared.Domain.{MarketId, OrderId}
use omniscient.Shared.Order.{Order, SignedOrder, asset_type}
use omniscient.Store.{OrderRow, Hold, held, open_order, Balance, Tables, execute, execute_count}
use omniscient.Store.Table.{update_where, update_where-none}
use omniscient.Gateway.Infra.{
  i64_or_zero, is_account, can_reserve, reserve_row, release_row, insert_order, insert_hold,
  reserve_collateral, release_collateral, ensure_user,
}
use omniscient.Gateway.Infra.Collateral.{release-reserve}
use omniscient.Gateway.Service.{position_ref, collateral_u64, store_order}

-- The rows of the account that an order draws on; its collateral; and the balances after it was
-- moved from what is available to what is on hold.
abbrev pub account : Order → Balance → Bool
account o = is_account o.maker (asset_type o) (position_ref o)

abbrev pub collateral : Order → ℕ
collateral o = i64_or_zero (collateral_u64 o)

abbrev pub reservable : Order → Balance → Bool
reservable o = can_reserve o.maker (asset_type o) (position_ref o) (collateral o)

abbrev pub reserved : Order → List Balance → List Balance
reserved o bs = update_where (reservable o) (reserve_row (collateral o)) bs

module _ (order_id : OrderId) (signed : SignedOrder) (market_id : MarketId) where
  pub restore :
      (t : Tables)
      → length (filter (account signed.order) t.balances) ≤ 1
      → length (filter (reservable signed.order) t.balances) ≢ 0
      → update_where
          (account signed.order)
          (release_row (collateral signed.order))
          (reserved signed.order t.balances)
        ≡ t.balances
  restore t u =
      release-reserve signed.order.maker (asset_type signed.order) (position_ref signed.order)
        (collateral signed.order) t.balances u

  unchanged :
      (t : Tables)
      → length (filter (reservable signed.order) t.balances) ≡ 0
      → reserved signed.order t.balances ≡ t.balances
  unchanged t =
      update_where-none (reservable signed.order) (reserve_row (collateral signed.order)) t.balances

  -- With which statements the server refuses written out.
  store_order_cases :
      (t : Tables) (rs : List Bool)
      → (length (filter (reservable signed.order) t.balances) ≢ 0
          → update_where
              (account signed.order)
              (release_row (collateral signed.order))
              (reserved signed.order t.balances)
            ≡ t.balances)
      → (length (filter (reservable signed.order) t.balances) ≡ 0
          → reserved signed.order t.balances ≡ t.balances)
      → let r = store_order order_id signed market_id (record { tables = t; refusals = rs }) in
        (r.0 ≡ ok tt → r.1.tables.balances ≡ reserved signed.order t.balances)
        × ((r.1.tables.balances ≡ t.balances)
            ⊎ (r.1.tables.balances ≡ reserved signed.order t.balances))
        × (length (filter (λ b. b) rs) ≤ 1 → r.0 ≢ ok tt → r.1.tables.balances ≡ t.balances)
  unfolding store_order ensure_user reserve_collateral insert_order insert_hold release_collateral
      execute execute_count
  store_order_cases t [] e f = ground arith
  store_order_cases t (true ∷ rs) e f = ground arith
  store_order_cases t (false ∷ []) e f = ground arith
  store_order_cases t (false ∷ true ∷ rs) e f = ground arith
  store_order_cases t (false ∷ false ∷ []) e f = ground arith
  store_order_cases t (false ∷ false ∷ true ∷ []) e f = ground arith
  store_order_cases t (false ∷ false ∷ true ∷ true ∷ rs) e f = ground arith
  store_order_cases t (false ∷ false ∷ true ∷ false ∷ rs) e f = ground arith
  store_order_cases t (false ∷ false ∷ false ∷ []) e f = ground arith
  store_order_cases t (false ∷ false ∷ false ∷ false ∷ rs) e f = ground arith
  store_order_cases t (false ∷ false ∷ false ∷ true ∷ []) e f = ground arith
  store_order_cases t (false ∷ false ∷ false ∷ true ∷ true ∷ rs) e f = ground arith
  store_order_cases t (false ∷ false ∷ false ∷ true ∷ false ∷ rs) e f = ground arith

  pub store_order_balances :
      (t : Tables) (rs : List Bool)
      → length (filter (account signed.order) t.balances) ≤ 1
      → let r = store_order order_id signed market_id (record { tables = t; refusals = rs }) in
        (r.0 ≡ ok tt → r.1.tables.balances ≡ reserved signed.order t.balances)
        × ((r.1.tables.balances ≡ t.balances)
            ⊎ (r.1.tables.balances ≡ reserved signed.order t.balances))
        × (length (filter (λ b. b) rs) ≤ 1 → r.0 ≢ ok tt → r.1.tables.balances ≡ t.balances)
  store_order_balances t rs u = store_order_cases t rs (restore t u) (unchanged t)

-- The row and the hold of an order that is accepted.
abbrev pub order_row : OrderId → SignedOrder → MarketId → OrderRow
order_row order_id signed market_id = record {
  order_id = order_id;
  user_address = signed.order.maker.bytes;
  market_id = market_id.bytes;
  side = signed.order.side;
  price = i64_or_zero signed.order.price;
  amount = i64_or_zero signed.order.amount;
  filled_amount = 0;
  status = open_order;
  nonce = i64_or_zero signed.order.nonce;
  salt = signed.order.salt.bytes;
  position_id = signed.order.position_id;
  signature = signed.signature;
  deadline = i64_or_zero signed.order.deadline;
}

abbrev pub hold_row : OrderId → SignedOrder → Hold
hold_row order_id signed = record {
  user_address = signed.order.maker.bytes;
  order_id = order_id;
  asset_type = asset_type signed.order;
  position_id = position_ref signed.order;
  amount = collateral signed.order;
  status = held;
}

module _ (order_id : OrderId) (signed : SignedOrder) (market_id : MarketId) where
  pub store_order_ok :
      (t : Tables) (rs : List Bool)
      → let r = store_order order_id signed market_id (record { tables = t; refusals = rs }) in
        r.0 ≡ ok tt
        → (length (filter (reservable signed.order) t.balances) ≢ 0)
          × (r.1.tables.orders ≡ t.orders ++ order_row order_id signed market_id ∷ [])
          × (r.1.tables.holds ≡ t.holds ++ hold_row order_id signed ∷ [])
  unfolding store_order ensure_user reserve_collateral insert_order insert_hold release_collateral
      execute execute_count
  store_order_ok t [] = ground arith
  store_order_ok t (true ∷ rs) = ground arith
  store_order_ok t (false ∷ []) = ground arith
  store_order_ok t (false ∷ true ∷ rs) = ground arith
  store_order_ok t (false ∷ false ∷ []) = ground arith
  store_order_ok t (false ∷ false ∷ true ∷ rs) = ground arith
  store_order_ok t (false ∷ false ∷ false ∷ []) = ground arith
  store_order_ok t (false ∷ false ∷ false ∷ r ∷ rs) = ground arith
