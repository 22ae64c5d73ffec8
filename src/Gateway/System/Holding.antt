-- ===== src/Gateway/System/Holding.antt =====
-- What accepting an order does to what is on hold, statement by statement.
use omniscient.Prelude.{
  ℕ, ◌+◌, ◌≡◌, ◌≢◌, ◌⊎◌, inl, inr, refl, sym, subst, Option, none, some, List, [], ◌∷◌, ◌++◌,
  filter, length, arith, if◌then◌else◌,
}
use omniscient.Prelude.Result.{Result, ok, err}
use omniscient.Shared.Domain.{Address, MarketId, OrderId, bytes_eq, bytes_eq_iff}
use omniscient.Shared.Order.{AssetType, usdc, ctf, Order, SignedOrder, asset_type}
use omniscient.Store.{
  Bytes, Hold, Tables, Db, Sql, Error, sqlx, insufficient_balance, execute, execute_count,
}
use omniscient.Gateway.Infra.{
  i64_or_zero, asset_eq, position_eq, can_reserve, ensure_user, reserve_collateral,
  release_collateral, insert_order, insert_hold,
}
use omniscient.Gateway.Service.{
  OrderError, ensure_user_error, collateral_error, insert_order_error, insert_hold_error, map_error,
  or_release, and_then, position_ref, collateral_u64, store_order,
}
use omniscient.Gateway.Service.Storing.{collateral, hold_row, order_row}
use omniscient.Gateway.System.Ends.{
  Ends, Ends-ok, Ends-err, execute-Ends, execute_cases, map_error-Ends, and_then-Ends,
  or_release-Ends,
}
use omniscient.Gateway.System.OnHold.{Account, holds_of, same_account, held_total}
use omniscient.Gateway.System.Covered.{
  IsCovered, IsCoveredWith, IsCovered-same, IsCoveredWith-same, IsCovered-less, reserve_in,
  release_in, IsCovered-reserve_none, IsCoveredWith-reserve, IsCovered-release,
}

-- The account that an order draws on.
abbrev pub account_of : Order → Account
account_of o = record { maker = o.maker; asset = asset_type o; position = position_ref o }

ensure_user-IsCovered :
    (maker : Address) (db : Db)
    → IsCovered db.tables
    → Ends IsCovered IsCovered (ensure_user maker db)
unfolding ensure_user
ensure_user-IsCovered maker db v =
    execute-Ends IsCovered IsCovered _ db (IsCovered-same db.tables _ refl refl v) v

reserve_collateral_cases :
    (c : Account) (amount : ℕ) (db : Db)
    → let r = reserve_collateral c.maker c.asset c.position amount db in
      let a = i64_or_zero amount in
      let n = length (filter (can_reserve c.maker c.asset c.position a) db.tables.balances) in
      ((r.0 ≡ ok tt) × (r.1.tables ≡ reserve_in c a db.tables) × (n ≢ 0))
      ⊎ ((r.0 ≡ err (insufficient_balance c.asset)) × (r.1.tables ≡ reserve_in c a db.tables))
      ⊎ ((r.0 ≡ err sqlx) × (r.1.tables ≡ db.tables))
unfolding reserve_collateral execute_count
reserve_collateral_cases c amount db = ground arith

reserve_collateral-IsCovered :
    (c : Account) (amount : ℕ) (db : Db)
    → IsCovered db.tables
    → Ends
        (IsCoveredWith c (i64_or_zero amount))
        IsCovered
        (reserve_collateral c.maker c.asset c.position amount db)
reserve_collateral-IsCovered c amount db v = elim (reserve_collateral_cases c amount db) [
  | inl e ↦
      Ends-ok W IsCovered r e.0 (subst W (sym e.1) (IsCoveredWith-reserve c a db.tables e.2 v))
  | inr (inl e) ↦
      Ends-err W IsCovered r (insufficient_balance c.asset) e.0
        (subst IsCovered (sym e.1) (IsCovered-reserve_none c a db.tables v))
  | inr (inr e) ↦ Ends-err W IsCovered r sqlx e.0 (subst IsCovered (sym e.1) v)
]
  where
    a : ℕ
    a = i64_or_zero amount

    W : Tables → Type 0
    W = IsCoveredWith c a

    r : Result (Unit {0}) Error × Db
    r = reserve_collateral c.maker c.asset c.position amount db

release_collateral-IsCovered :
    (c : Account) (amount : ℕ) (db : Db)
    → IsCoveredWith c (i64_or_zero amount) db.tables
    → IsCovered (release_collateral c.maker c.asset c.position amount db).1.tables
unfolding release_collateral
release_collateral-IsCovered c amount db v =
    elim (execute_cases (release_in c (i64_or_zero amount)) db) [
      | inl e ↦ subst IsCovered (sym e.1) (IsCovered-release c (i64_or_zero amount) db.tables v)
      | inr e ↦ subst IsCovered (sym e.1) (IsCovered-less c (i64_or_zero amount) db.tables v)
    ]

held_total-append :
    (a : Account) (hs : List Hold) (h : Hold)
    → held_total a (hs ++ h ∷ []) ≡ held_total a hs + (if holds_of a h then h.amount else 0)
unfolding held_total
held_total-append a [] h = omega arith
held_total-append a (g ∷ hs) h = let i = held_total-append a hs h in omega arith

bytes_eq_comm : (x y : Bytes) → bytes_eq x y ≡ bytes_eq y x
bytes_eq_comm x y = let i = bytes_eq_iff x y in let j = bytes_eq_iff y x in ground arith

asset_eq_comm : (x y : AssetType) → asset_eq x y ≡ asset_eq y x
asset_eq_comm usdc usdc = refl
asset_eq_comm usdc ctf = refl
asset_eq_comm ctf usdc = refl
asset_eq_comm ctf ctf = refl

position_eq_comm : (x y : Option ℕ) → position_eq x y ≡ position_eq y x
position_eq_comm none none = refl
position_eq_comm none (some y) = refl
position_eq_comm (some x) none = refl
position_eq_comm (some x) (some y) = ground arith

-- The hold of an order is of the account that the order draws on.
holds_of-hold_row :
    (a : Account) (order_id : OrderId) (signed : SignedOrder)
    → holds_of a (hold_row order_id signed) ≡ same_account a (account_of signed.order)
unfolding holds_of
holds_of-hold_row a order_id signed =
    let o = signed.order in
    let i = bytes_eq_comm o.maker.bytes a.maker.bytes in
    let j = asset_eq_comm (asset_type o) a.asset in
    let k = position_eq_comm (position_ref o) a.position in ground arith

-- The hold of an order takes up what was reserved for it.
IsCovered-hold :
    (order_id : OrderId) (signed : SignedOrder) (t : Tables)
    → IsCoveredWith (account_of signed.order) (collateral signed.order) t
    → IsCovered (record t { holds = t.holds ++ hold_row order_id signed ∷ [] })
IsCovered-hold order_id signed t v = record {
  one_row = v.one_row;
  covered = λ a.
      let h = v.covered a in
      let e = held_total-append a t.holds (hold_row order_id signed) in
      let s = holds_of-hold_row a order_id signed in ground arith;
}

pub store_order-IsCovered :
    (order_id : OrderId) (signed : SignedOrder) (market_id : MarketId) (db : Db)
    → IsCovered db.tables
    → Ends IsCovered IsCovered (store_order order_id signed market_id db)
unfolding store_order insert_order insert_hold
store_order-IsCovered order_id signed market_id db v =
    and_then-Ends IsCovered IsCovered IsCovered users
      (and_then reserved (and_then inserted held_for)) db
      (map_error-Ends IsCovered IsCovered ensure_user_error (ensure_user o.maker db)
        (ensure_user-IsCovered o.maker db v))
      (λ db v.
        and_then-Ends IsCovered IsCovered W reserved (and_then inserted held_for) db
          (map_error-Ends W IsCovered collateral_error
            (reserve_collateral o.maker c.asset c.position amount db)
            (reserve_collateral-IsCovered c amount db v))
          (λ db v.
            and_then-Ends IsCovered IsCovered W inserted held_for db
              (or_release-Ends W IsCovered W insert_order_error release insert db
                (execute-Ends W W add_order db
                  (IsCoveredWith-same c (collateral o) db.tables (add_order db.tables) refl refl v)
                  v)
                (λ db v. release_collateral-IsCovered c amount db v))
              (λ db v.
                or_release-Ends IsCovered IsCovered W insert_hold_error release hold db
                  (execute-Ends IsCovered W add_hold db (IsCovered-hold order_id signed db.tables v)
                    v)
                  (λ db v. release_collateral-IsCovered c amount db v))))
  where
    o : Order
    o = signed.order

    c : Account
    c = account_of o

    amount : ℕ
    amount = collateral_u64 o

    W : Tables → Type 0
    W = IsCoveredWith c (collateral o)

    add_order : Tables → Tables
    add_order t = record t { orders = t.orders ++ order_row order_id signed market_id ∷ [] }

    add_hold : Tables → Tables
    add_hold t = record t { holds = t.holds ++ hold_row order_id signed ∷ [] }

    release : Sql (Unit {0})
    release = release_collateral o.maker c.asset c.position amount

    insert : Sql (Unit {0})
    insert = execute add_order

    hold : Sql (Unit {0})
    hold = execute add_hold

    users : Db → Result (Unit {0}) OrderError × Db
    users db = let r = ensure_user o.maker db in (map_error ensure_user_error r.0, r.1)

    reserved : Db → Result (Unit {0}) OrderError × Db
    reserved db =
        let r = reserve_collateral o.maker c.asset c.position amount db in
        (map_error collateral_error r.0, r.1)

    inserted : Db → Result (Unit {0}) OrderError × Db
    inserted = or_release insert_order_error release insert

    held_for : Db → Result (Unit {0}) OrderError × Db
    held_for = or_release insert_hold_error release hold
