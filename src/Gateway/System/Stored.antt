-- ===== src/Gateway/System/Stored.antt =====
-- What keeps an order stored.
use omniscient.Prelude.{
  ℕ, ◌≡◌, refl, Bool, true, Option, List, [], ◌∷◌, ◌++◌, any, any-append, arith, ◌==◌,
  if◌then◌else◌, ◌&&◌, ◌+◌,
}
use omniscient.Prelude.Result.{Result, ok, err}
use omniscient.Shared.Domain.{Address, MarketId, OrderId}
use omniscient.Shared.Order.{Order, SignedOrder, AssetType, asset_type}
use omniscient.Store.{
  OrderRow, Tables, Db, Sql, Error, filled, cancelled, open_order, execute, execute_count,
}
use omniscient.Store.Table.{update_where}
use omniscient.Store.Keeps.{Keeps, execute-Keeps}
use omniscient.Gateway.Infra.{
  i64_or_zero, is_open, insert_order, insert_hold, reserve_collateral, release_collateral,
  update_order_filled, cancel_order_db, ensure_user,
}
use omniscient.Gateway.Service.{
  OrderError, ensure_user_error, collateral_error, insert_order_error, insert_hold_error, map_error,
  or_release, and_then, position_ref, collateral_u64, store_order,
}
use omniscient.Gateway.Service.Storing.{order_row}

module _ (J : Tables → Type 0) where
  abbrev Kept : (Db → Result (Unit {0}) OrderError × Db) → Type 0
  Kept m = (db : Db) → J db.tables → J (m db).1.tables

  and_then-Kept :
      (m k : Db → Result (Unit {0}) OrderError × Db) → Kept m → Kept k → Kept (and_then m k)
  and_then-Kept m k h l db j = by_result (m db) (h db j)
    where
      by_result :
          (r : Result (Unit {0}) OrderError × Db)
          → J r.1.tables
          → J
              (elim r.0 as (λ _. Result (Unit {0}) OrderError × Db) [
                | ok u ↦ k r.1
                | err e ↦ (err e, r.1)
              ]).1.tables
      by_result (ok u, db') j' = l db' j'
      by_result (err e, db') j' = j'

  or_release-Kept :
      (f : Error → OrderError) (release step : Sql (Unit {0}))
      → Keeps J release
      → Keeps J step
      → Kept (or_release f release step)
  or_release-Kept f release step h l db j = by_result (step db) (l db j)
    where
      by_result :
          (r : Result (Unit {0}) Error × Db)
          → J r.1.tables
          → J
              (elim r.0 as (λ _. Result (Unit {0}) OrderError × Db) [
                | ok u ↦ (ok tt, r.1)
                | err e ↦ (err (f e), (release r.1).1)
              ]).1.tables
      by_result (ok u, db') j' = j'
      by_result (err e, db') j' = h db' j'

-- An order of this id is stored.
abbrev pub IsStored : OrderId → Tables → Type 0
IsStored id t = any (λ o. o.order_id == id) t.orders ≡ true

any-update_where :
    {A : Type 0} (p q : A → Bool) (f : A → A) (xs : List A)
    → ((x : A) → p (f x) ≡ p x)
    → any p (update_where q f xs) ≡ any p xs
unfolding update_where
any-update_where p q f [] h = refl
any-update_where p q f (x ∷ xs) h = ground (arith, h x, any-update_where p q f xs h)

module _ (id : OrderId) where
  abbrev J : Tables → Type 0
  J = IsStored id

  ensure_user-IsStored : (maker : Address) → Keeps J (ensure_user maker)
  unfolding ensure_user execute
  ensure_user-IsStored maker db j = ground arith

  reserve_collateral-IsStored :
      (maker : Address) (asset : AssetType) (position : Option ℕ) (amount : ℕ)
      → Keeps J (reserve_collateral maker asset position amount)
  unfolding reserve_collateral execute_count
  reserve_collateral-IsStored maker asset position amount db j = ground arith

  release_collateral-IsStored :
      (maker : Address) (asset : AssetType) (position : Option ℕ) (amount : ℕ)
      → Keeps J (release_collateral maker asset position amount)
  unfolding release_collateral execute
  release_collateral-IsStored maker asset position amount db j = ground arith

  add_order-IsStored :
      (row : OrderRow) → Keeps J (execute λ t. record t { orders = t.orders ++ row ∷ [] })
  add_order-IsStored row =
      execute-Keeps J (λ t. record t { orders = t.orders ++ row ∷ [] })
        (λ t j.
          let a = any-append (λ (o : OrderRow). o.order_id == id) t.orders (row ∷ []) in
          ground arith)

  insert_hold-IsStored :
      (order_id : OrderId) (maker : Address) (asset : AssetType) (position : Option ℕ) (amount : ℕ)
      → Keeps J (insert_hold order_id maker asset position amount)
  unfolding insert_hold execute
  insert_hold-IsStored order_id maker asset position amount db j = ground arith

  pub update_order_filled-IsStored :
      (order_id : OrderId) (delta : ℕ) (full : Bool)
      → Keeps J (update_order_filled order_id delta full)
  unfolding update_order_filled execute
  update_order_filled-IsStored order_id delta full db j =
      let a =
        any-update_where (λ (o : OrderRow). o.order_id == id) (λ o. o.order_id == order_id)
          (λ o. record o {
            filled_amount = o.filled_amount + i64_or_zero delta;
            status = if full then filled else open_order;
          })
          db.tables.orders (λ o. refl) in
      ground arith

  pub cancel_order_db-IsStored : (order_id : OrderId) → Keeps J (cancel_order_db order_id)
  unfolding cancel_order_db execute
  cancel_order_db-IsStored order_id db j =
      let a =
        any-update_where (λ (o : OrderRow). o.order_id == id)
          (λ o. o.order_id == order_id && is_open o.status) (λ o. record o { status = cancelled })
          db.tables.orders (λ o. refl) in
      ground arith

  pub store_order-IsStored :
      (order_id : OrderId) (signed : SignedOrder) (market_id : MarketId)
      → Kept J (store_order order_id signed market_id)
  unfolding store_order insert_order
  store_order-IsStored order_id signed market_id =
      and_then-Kept J users (and_then reserved (and_then inserted held))
        (λ db j. ensure_user-IsStored o.maker db j)
        (and_then-Kept J reserved (and_then inserted held)
          (λ db j. reserve_collateral-IsStored o.maker asset position amount db j)
          (and_then-Kept J inserted held
            (or_release-Kept J insert_order_error release insert release-Keeps
              (add_order-IsStored (order_row order_id signed market_id)))
            (or_release-Kept J insert_hold_error release hold release-Keeps
              (insert_hold-IsStored order_id o.maker asset position amount))))
    where
      o : Order
      o = signed.order

      asset : AssetType
      asset = asset_type o

      position : Option ℕ
      position = position_ref o

      amount : ℕ
      amount = collateral_u64 o

      release : Sql (Unit {0})
      release = release_collateral o.maker asset position amount

      insert : Sql (Unit {0})
      insert =
          insert_order order_id o.maker market_id o.side o.price o.amount o.nonce o.salt.bytes
            o.position_id signed.signature (i64_or_zero o.deadline)

      hold : Sql (Unit {0})
      hold = insert_hold order_id o.maker asset position amount

      users : Db → Result (Unit {0}) OrderError × Db
      users db = let r = ensure_user o.maker db in (map_error ensure_user_error r.0, r.1)

      reserved : Db → Result (Unit {0}) OrderError × Db
      reserved db =
          let r = reserve_collateral o.maker asset position amount db in
          (map_error collateral_error r.0, r.1)

      inserted : Db → Result (Unit {0}) OrderError × Db
      inserted = or_release insert_order_error release insert

      held : Db → Result (Unit {0}) OrderError × Db
      held = or_release insert_hold_error release hold

      release-Keeps : Keeps J (release_collateral o.maker asset position amount)
      release-Keeps = release_collateral-IsStored o.maker asset position amount
