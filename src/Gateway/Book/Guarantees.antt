-- ===== src/Gateway/Book/Guarantees.antt =====
-- What a taker and the other makers can count on when an order is matched.
use omniscient.Prelude.{ℕ, ◌+◌, ◌≡◌, false, All, reverse, All-reverse, All-append, [], ◌∷◌}
use omniscient.Shared.Domain.{Address, OrderId, OrderSide, buy, sell, address_eq}
use omniscient.Gateway.Book.{Levels, OrderBook, match_by_side}
use omniscient.Gateway.Book.Priority.{IsSound}
use omniscient.Gateway.Book.Side.{IsLevel, flat}
use omniscient.Gateway.Book.Matching.{IsValid, opposite, crosses, taker_of, match_by_side-Refines}
use omniscient.Gateway.Book.Fills.{offered, sold, IsFair, fill_queue-IsFair, fill_queue-offered}

flat-IsSound : (m : Levels) → All IsLevel m → All IsSound (flat m)
flat-IsSound [] h = tt
flat-IsSound ((p, l) ∷ m) h = All-append IsSound l (flat m) h.0.1 (flat-IsSound m h.1)

opposite-IsSound : (side : OrderSide) (b : OrderBook) → IsValid b → All IsSound (opposite side b)
opposite-IsSound buy b v = flat-IsSound b.sells v.sells_levels
opposite-IsSound sell b v = flat-IsSound (reverse b.buys) (All-reverse IsLevel b.buys v.buys_levels)

module _ (side : OrderSide) (id : OrderId) (a : Address) (price amount : ℕ) (b : OrderBook)
    (v : IsValid b) where
  -- On a valid book, every fill is at a price within the limit, with another maker than the taker,
  -- and under the taker's address, order id and side.
  pub match_by_side-IsFair :
      All
        (IsFair (crosses side price) (taker_of side id a))
        (match_by_side side id a price amount b).1
  match_by_side-IsFair =
      rw (match_by_side-Refines side id a price amount b v).fills_eq
        (fill_queue-IsFair (crosses side price) (taker_of side id a) amount (opposite side b))

  -- On a valid book, for every maker but the taker: what the maker's orders on the side that is
  -- consumed offered before is what they still offer and what the fills took from this maker.
  pub match_by_side-offered :
      (m : Address)
      → address_eq a m ≡ false
      → let res = match_by_side side id a price amount b in
        offered m (opposite side b) ≡ offered m (opposite side res.0) + sold m res.1
  match_by_side-offered m other =
      let r = match_by_side-Refines side id a price amount b v in
      rw (r.queue_eq, r.fills_eq)
        (fill_queue-offered (crosses side price) (taker_of side id a) m amount (opposite side b)
          other (opposite-IsSound side b v))
