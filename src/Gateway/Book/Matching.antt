-- ===== src/Gateway/Book/Matching.antt =====
-- A whole order is matched as the specification says.
use omniscient.Prelude.{
  ℕ, suc, ◌≡◌, refl, Bool, List, [], All, length, length-reverse, reverse, arith, leb, ◌==◌,
}
use omniscient.Prelude.BTreeMap.{IsSorted, first_key, last_key}
use omniscient.Prelude.BTreeMap.Ends.{rising, first_key-Front, last_key-Front}
use omniscient.Shared.Domain.{Address, OrderId, OrderSide, buy, sell}
use omniscient.Gateway.Book.{
  RestingOrder, Taker, Fill, Levels, OrderBook, match_side, match_buy, match_sell, match_by_side,
}
use omniscient.Gateway.Book.Priority.{Outcome, fill_queue}
use omniscient.Gateway.Book.Side.{IsLevel, flat}
use omniscient.Gateway.Book.Refinement.{match_levels-Serves}

-- The keys of each side rise, no level is empty, and every order is sound and at its level's price.
pub record IsValid (b : OrderBook) : Type 0 where
  pub buys_sorted : IsSorted b.buys
  pub buys_levels : All IsLevel b.buys
  pub sells_sorted : IsSorted b.sells
  pub sells_levels : All IsLevel b.sells

-- The resting orders that an order of this side meets, the best price first and in a level the
-- oldest first.
abbrev pub opposite : OrderSide → OrderBook → List RestingOrder
opposite buy b = flat b.sells
opposite sell b = flat (reverse b.buys)

-- The side that an order of this side rests on.
abbrev pub own_side : OrderSide → OrderBook → Levels
own_side buy b = b.buys
own_side sell b = b.sells

-- Whether a resting order's price is acceptable at the limit `price`.
abbrev pub crosses : OrderSide → ℕ → ℕ → Bool
crosses buy price p = leb p price
crosses sell price p = leb price p

abbrev pub taker_of : OrderSide → OrderId → Address → Taker
taker_of side id a = record { order_id = id; address = a; side = side }

-- The specification of a call.
abbrev pub served : OrderSide → OrderId → Address → ℕ → ℕ → OrderBook → Outcome
served side id a price amount b =
    fill_queue (crosses side price) (taker_of side id a) amount (opposite side b)

-- A result of matching against an outcome of the specification.
pub record Refines (side : OrderSide) (b : OrderBook) (r : Outcome)
    (res : OrderBook × List Fill × Bool) : Type 0 where
  pub fills_eq : res.1 ≡ r.fills
  pub full_eq : res.2 ≡ (r.left == 0)
  pub queue_eq : opposite side res.0 ≡ r.queue
  pub own_side_eq : own_side side res.0 ≡ own_side side b
  pub seq_eq : res.0.next_seq ≡ b.next_seq
  pub valid : IsValid res.0

-- For a valid book, `match_buy` and `match_sell` give the fills of the specification and report
-- in full whether all was filled; the queue that is left is the specification's; the other side
-- and the counter are as before, and the book is valid.
pub match_by_side-Refines :
    (side : OrderSide) (id : OrderId) (a : Address) (price amount : ℕ) (b : OrderBook)
    → IsValid b
    → Refines side b (served side id a price amount b) (match_by_side side id a price amount b)
unfolding match_by_side match_buy match_sell match_side
match_by_side-Refines buy id a price amount b v =
    let s =
      match_levels-Serves (crosses buy price) (taker_of buy id a) rising first_key first_key-Front
        (suc (length b.sells)) (record { left = amount; levels = b.sells; fills = [] })
        (omega arith) v.sells_sorted v.sells_levels in
    record {
      fills_eq = s.fills_eq;
      full_eq = rw s.left_eq;
      queue_eq = s.queue_eq;
      own_side_eq = refl;
      seq_eq = refl;
      valid = record {
        buys_sorted = v.buys_sorted;
        buys_levels = v.buys_levels;
        sells_sorted = s.sorted;
        sells_levels = s.levels;
      };
    }
match_by_side-Refines sell id a price amount b v =
    let s =
      match_levels-Serves (crosses sell price) (taker_of sell id a) reverse last_key last_key-Front
        (suc (length b.buys)) (record { left = amount; levels = b.buys; fills = [] })
        (omega (arith, length-reverse b.buys)) v.buys_sorted v.buys_levels in
    record {
      fills_eq = s.fills_eq;
      full_eq = rw s.left_eq;
      queue_eq = s.queue_eq;
      own_side_eq = refl;
      seq_eq = refl;
      valid = record {
        buys_sorted = s.sorted;
        buys_levels = s.levels;
        sells_sorted = v.sells_sorted;
        sells_levels = v.sells_levels;
      };
    }
