-- ===== src/Gateway/Book.antt =====
-- gateway/src/domain.rs, the order book.
pub mod Priority
pub mod Level
pub mod Side
pub mod Refinement
pub mod Matching
pub mod Fills
pub mod Cancel
pub mod Insert
pub mod Exhaustion
pub mod Uncrossed
pub mod Guarantees
pub mod Termination
use omniscient.Prelude.{
  ℕ, zero, suc, ◌-◌, min, Bool, true, false, Option, none, some, List, [], ◌∷◌, ◌++◌, length,
  is_empty, ltb, leb, ◌==◌, if◌then◌else◌, add_u64, sub_u64,
}
use omniscient.Prelude.BTreeMap.{BTreeMap, first_key, last_key, get, set, remove, update_or_default}
use omniscient.Shared.Domain.{Address, MarketId, OrderId, OrderSide, buy, sell, address_eq}

pub record RestingOrder : Type 0 where
  pub order_id : OrderId
  pub maker : Address
  pub price : ℕ
  pub amount : ℕ
  pub filled : ℕ
  pub side : OrderSide
  pub seq : ℕ
  pub nonce : ℕ
  pub deadline : ℕ

-- `self.amount - self.filled`
unfoldable pub remaining : RestingOrder → ℕ
remaining o = sub_u64 o.amount o.filled

pub record Fill : Type 0 where
  pub maker_order_id : OrderId
  pub taker_order_id : OrderId
  pub maker : Address
  pub taker : Address
  pub price : ℕ
  pub amount : ℕ
  pub taker_side : OrderSide

pub record MatchResult : Type 0 where
  pub market_id : MarketId
  pub fills : List Fill
  pub resting : Option RestingOrder
  pub fully_filled : Bool

-- `BTreeMap<u64, VecDeque<RestingOrder>>`; a deque is the list from its front.
abbrev pub Levels : Type 0
Levels = BTreeMap (List RestingOrder)

pub record OrderBook : Type 0 where
  pub buys : Levels
  pub sells : Levels
  pub next_seq : ℕ

unfoldable pub new : OrderBook
new = record { buys = []; sells = []; next_seq = 0 }

-- `entry(price).or_default().push_back(order)`
pub push_back : RestingOrder → Levels → Levels
push_back o = update_or_default o.price [] (λ level. level ++ o ∷ [])

insert_by_side : OrderSide → OrderBook → RestingOrder → OrderBook
insert_by_side buy book o = record book { buys = push_back o book.buys }
insert_by_side sell book o = record book { sells = push_back o book.sells }

-- The order is returned too, since `insert` writes its `seq`.
unfoldable pub insert : OrderBook → RestingOrder → OrderBook × RestingOrder
unfolding insert_by_side push_back
insert book order =
    let o = record order { seq = book.next_seq } in
    (insert_by_side o.side (record book { next_seq = add_u64 book.next_seq 1 }) o, o)

-- The variables of the inner `while`.
pub record LevelState : Type 0 where
  pub left : ℕ
  pub level : List RestingOrder
  pub fills : List Fill

-- The variables of the outer `while`.
pub record SideState : Type 0 where
  pub left : ℕ
  pub levels : Levels
  pub fills : List Fill

-- What the two loops read and do not write.
pub record Taker : Type 0 where
  pub order_id : OrderId
  pub address : Address
  pub side : OrderSide

-- The `Fill` that is pushed.
unfoldable pub make_fill : Taker → RestingOrder → ℕ → Fill
make_fill t o fill_amount = record {
  maker_order_id = o.order_id;
  taker_order_id = t.order_id;
  maker = o.maker;
  taker = t.address;
  price = o.price;
  amount = fill_amount;
  taker_side = t.side;
}

-- The body of the inner `while`, on `level.front()`.
unfoldable pub match_front : Taker → LevelState → List RestingOrder → LevelState
unfolding remaining make_fill
match_front t s [] = s
match_front t s (maker ∷ rest) =
    if address_eq maker.maker t.address
    then record s { level = rest }
    else let fill_amount = min s.left (remaining maker) in
      let maker_order = record maker { filled = add_u64 maker.filled fill_amount } in
      record {
        left = s.left - fill_amount;
        level = if remaining maker_order == 0 then rest else maker_order ∷ rest;
        fills = s.fills ++ make_fill t maker fill_amount ∷ [];
      }

-- Whether the inner `while` makes another round: `remaining > 0` and a front order.
abbrev pub level_continues : LevelState → Bool
level_continues s = if ltb 0 s.left then (if is_empty s.level then false else true) else false

unfoldable pub match_level : ℕ → Taker → LevelState → LevelState
match_level zero t s = s
match_level (suc fuel) t s = elim (level_continues s) [
  | true ↦ match_level fuel t (match_front t s s.level)
  | false ↦ s
]

-- The price of the next level, where the outer `while` makes another round.
unfoldable pub next_price : (Levels → Option ℕ) → (ℕ → Bool) → SideState → Option ℕ
next_price best crosses s =
    if ltb 0 s.left
    then (elim (best s.levels) [ none ↦ none | some p ↦ if crosses p then some p else none ])
    else none

pub level_at : ℕ → Levels → List RestingOrder
level_at p m = elim (get p m) [ none ↦ [] | some level ↦ level ]

-- The body of the outer `while` after its `break`.
unfoldable pub sweep : Taker → ℕ → SideState → SideState
unfolding level_at
sweep t p s =
    let level = level_at p s.levels in
    let r =
      match_level (suc (length level)) t
        (record { left = s.left; level = level; fills = s.fills }) in
    record {
      left = r.left;
      levels = if is_empty r.level then remove p s.levels else set p r.level s.levels;
      fills = r.fills;
    }

unfoldable pub match_levels : ℕ → (Levels → Option ℕ) → (ℕ → Bool) → Taker → SideState → SideState
match_levels zero best crosses t s = s
match_levels (suc fuel) best crosses t s = elim (next_price best crosses s) [
  | some p ↦ match_levels fuel best crosses t (sweep t p s)
  | none ↦ s
]

-- The two loops over one side of the book, from its best price.
unfoldable pub match_side : (Levels → Option ℕ) → (ℕ → Bool) → Taker → ℕ → Levels → SideState
match_side best crosses t amount m =
    match_levels (suc (length m)) best crosses t (record { left = amount; levels = m; fills = [] })

unfoldable pub match_buy : OrderId → Address → ℕ → ℕ → OrderBook → OrderBook × List Fill × Bool
match_buy taker_order_id taker price amount book =
    let t : Taker = record { order_id = taker_order_id; address = taker; side = buy } in
    let r = match_side first_key (λ p. leb p price) t amount book.sells in
    (record book { sells = r.levels }, r.fills, r.left == 0)

unfoldable pub match_sell : OrderId → Address → ℕ → ℕ → OrderBook → OrderBook × List Fill × Bool
match_sell taker_order_id taker price amount book =
    let t : Taker = record { order_id = taker_order_id; address = taker; side = sell } in
    let r = match_side last_key (λ p. leb price p) t amount book.buys in
    (record book { buys = r.levels }, r.fills, r.left == 0)

-- The choice that the matcher makes (engine.rs).
unfoldable pub match_by_side :
    OrderSide → OrderId → Address → ℕ → ℕ → OrderBook → OrderBook × List Fill × Bool
match_by_side buy = match_buy
match_by_side sell = match_sell
