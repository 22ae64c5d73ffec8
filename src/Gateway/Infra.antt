-- ===== src/Gateway/Infra.antt =====
-- gateway/src/infra.rs: the gateway's statements, and the events it publishes.
pub mod Collateral
use omniscient.Prelude.{
  ℕ, ◌-◌, ◌+◌, Bool, true, false, ◌&&◌, Option, none, some, List, [], ◌∷◌, ◌++◌, ltb, leb, ◌==◌,
  if◌then◌else◌, filter, length, u256_mod,
}
use omniscient.Prelude.Integers.{ℤ, pos, negsuc, add_nat, sub_nat}
use omniscient.Prelude.Result.{Result, ok, err}
use omniscient.Shared.Domain.{Address, MarketId, OrderId, OrderSide, bytes_eq}
use omniscient.Shared.Hex.{
  Text, HexCodec, address_try_from, market_id_try_from, address_to_text, market_id_to_text,
}
use omniscient.Gateway.Book.{Fill}
use omniscient.Shared.Order.{AssetType, usdc, ctf}
use omniscient.Store.{
  Bytes, User, Balance, OrderRow, OrderStatus, open_order, filled, cancelled, expired, Hold, held,
  Tables, Sql, Error, insufficient_balance, invalid_row, give, execute, execute_count, fetch, ◌>>=◌,
  ◌>>◌,
}
use omniscient.Store.Table.{insert_new, update_where}
use omniscient.Indexer.{i64_limit}

-- `i64::try_from(n).unwrap_or(0)`
abbrev pub i64_or_zero : ℕ → ℕ
i64_or_zero n = if ltb n i64_limit then n else 0

unfoldable pub insert_order :
    OrderId → Address → MarketId → OrderSide → ℕ → ℕ → ℕ → Bytes → ℕ → Bytes → ℕ → Sql (Unit {0})
insert_order order_id maker market_id side price amount nonce salt position_id signature deadline =
    execute λ t. record t {
      orders =
          t.orders
          ++ record {
            order_id = order_id;
            user_address = maker.bytes;
            market_id = market_id.bytes;
            side = side;
            price = i64_or_zero price;
            amount = i64_or_zero amount;
            filled_amount = 0;
            status = open_order;
            nonce = i64_or_zero nonce;
            salt = salt;
            position_id = position_id;
            signature = signature;
            deadline = deadline;
          }
            ∷ [];
    }

unfoldable pub insert_hold : OrderId → Address → AssetType → Option ℕ → ℕ → Sql (Unit {0})
insert_hold order_id maker asset_type position_id amount = execute λ t. record t {
  holds =
      t.holds
      ++ record {
        user_address = maker.bytes;
        order_id = order_id;
        asset_type = asset_type;
        position_id = position_id;
        amount = i64_or_zero amount;
        status = held;
      }
        ∷ [];
}

abbrev pub asset_eq : AssetType → AssetType → Bool
asset_eq usdc usdc = true
asset_eq ctf ctf = true
asset_eq _ _ = false

-- COALESCE(p, '') = COALESCE(q, '')
abbrev pub position_eq : Option ℕ → Option ℕ → Bool
position_eq none none = true
position_eq none (some q) = false
position_eq (some p) none = false
position_eq (some p) (some q) = p == q

-- WHERE user_address = $1 AND asset_type = $2 AND COALESCE(…) = COALESCE($4, '')
unfoldable pub is_account : Address → AssetType → Option ℕ → Balance → Bool
is_account maker asset position b =
    bytes_eq b.user_address maker.bytes
    && asset_eq b.asset_type asset
    && position_eq b.position_id position

-- available_amount >= $3
abbrev pub covers : ℤ → ℕ → Bool
covers (pos n) a = leb a n
covers (negsuc n) a = false

abbrev pub can_reserve : Address → AssetType → Option ℕ → ℕ → Balance → Bool
can_reserve maker asset position a b =
    is_account maker asset position b && covers b.available_amount a

abbrev pub reserve_row : ℕ → Balance → Balance
reserve_row a b = record b {
  available_amount = sub_nat b.available_amount a;
  hold_amount = b.hold_amount + a;
}

abbrev pub release_row : ℕ → Balance → Balance
release_row a b = record b {
  available_amount = add_nat b.available_amount a;
  hold_amount = b.hold_amount - a;
}

unfoldable pub reserve_collateral : Address → AssetType → Option ℕ → ℕ → Sql (Unit {0})
reserve_collateral maker asset position amount = do
  let a = i64_or_zero amount
  let affected = can_reserve maker asset position a
  rows ← execute_count λ t. (
    record t { balances = update_where affected (reserve_row a) t.balances },
    length (filter affected t.balances),
  )
  if rows == 0 then give (err (insufficient_balance asset)) else give (ok tt)

-- `GREATEST(hold_amount - $3, 0)` is the subtraction that stops at 0.
unfoldable pub release_collateral : Address → AssetType → Option ℕ → ℕ → Sql (Unit {0})
release_collateral maker asset position amount = execute λ t. record t {
  balances =
      update_where (is_account maker asset position) (release_row (i64_or_zero amount)) t.balances;
}

unfoldable pub update_order_filled : OrderId → ℕ → Bool → Sql (Unit {0})
update_order_filled order_id filled_delta fully_filled = execute λ t. record t {
  orders =
      update_where (λ o. o.order_id == order_id)
        (λ o. record o {
          filled_amount = o.filled_amount + i64_or_zero filled_delta;
          status = if fully_filled then filled else open_order;
        })
        t.orders;
}

abbrev pub is_open : OrderStatus → Bool
is_open open_order = true
is_open _ = false

unfoldable pub cancel_order_db : OrderId → Sql (Unit {0})
cancel_order_db order_id = execute λ t. record t {
  orders =
      update_where (λ o. o.order_id == order_id && is_open o.status)
        (λ o. record o { status = cancelled }) t.orders;
}

pub record OpenOrderRow : Type 0 where
  pub order_id : OrderId
  pub user_address : Address
  pub market_id : MarketId
  pub side : OrderSide
  pub price : ℕ
  pub amount : ℕ
  pub filled_amount : ℕ
  pub nonce : ℕ
  pub deadline : ℕ
  pub position_id : ℕ

abbrev pub or_invalid : {A E : Type 0} → Result A E → Result A Error
or_invalid (ok a) = ok a
or_invalid (err e) = err invalid_row

infixl 5 ◌then_ok◌
abbrev pub ◌then_ok◌ : {A B : Type 0} → Result A Error → (A → Result B Error) → Result B Error
ok a then_ok f = f a
err e then_ok f = err e

-- One turn of the loop over the rows. The texts of a side are those that the table's CHECK allows;
-- `parse::<U256>().unwrap_or_default()` gives 0 for a number that does not fit.
unfoldable pub open_order_row : OrderRow → Result OpenOrderRow Error
open_order_row o = or_invalid (address_try_from o.user_address) then_ok λ user_address.
    or_invalid (market_id_try_from o.market_id) then_ok λ market_id. ok (record {
      order_id = o.order_id;
      user_address = user_address;
      market_id = market_id;
      side = o.side;
      price = o.price;
      amount = o.amount;
      filled_amount = o.filled_amount;
      nonce = o.nonce;
      deadline = o.deadline;
      position_id = if ltb o.position_id u256_mod then o.position_id else 0;
    })

unfoldable pub open_order_rows : List OrderRow → Result (List OpenOrderRow) Error
open_order_rows [] = ok []
open_order_rows (o ∷ os) =
    open_order_row o then_ok λ r. open_order_rows os then_ok λ rs. ok (r ∷ rs)

unfoldable pub load_open_orders : Sql (List OpenOrderRow)
load_open_orders = do
  rows ← fetch λ t. filter (λ o. is_open o.status) t.orders
  give (open_order_rows rows)

unfoldable pub ensure_user : Address → Sql (Unit {0})
ensure_user maker = execute λ t. record t {
  users =
      insert_new (λ u. bytes_eq u.address maker.bytes)
        (record { address = maker.bytes; cancellation_nonce = 0 }) t.users;
}

-- The event of `orders.matched`; its side is the text of the taker's side.
pub record MatchEvent : Type 0 where
  pub market_id : Text
  pub maker : Text
  pub taker : Text
  pub price : ℕ
  pub amount : ℕ
  pub side : OrderSide

-- The topic: what was sent, the key of each event first, and which of the next sends fail.
pub record Topic : Type 0 where
  pub sent : List (Text × MatchEvent)
  pub refusals : List Bool

unfoldable pub match_event : HexCodec → MarketId → Fill → MatchEvent
match_event hex market_id f = record {
  market_id = market_id_to_text hex market_id;
  maker = address_to_text hex f.maker;
  taker = address_to_text hex f.taker;
  price = f.price;
  amount = f.amount;
  side = f.taker_side;
}

-- Whether the event was sent, and the topic after that.
unfoldable pub publish_match : HexCodec → MarketId → Fill → Topic → Bool × Topic
publish_match hex market_id f topic =
    let event : Text × MatchEvent =
      (market_id_to_text hex market_id, match_event hex market_id f) in
    elim topic.refusals [
      | [] ↦ (true, record topic { sent = topic.sent ++ event ∷ [] })
      | true ∷ rs ↦ (false, record topic { refusals = rs })
      | false ∷ rs ↦ (true, record { sent = topic.sent ++ event ∷ []; refusals = rs })
    ]
