-- ===== src/Gateway/Book/Uncrossed.antt =====
-- The best bid stays below the best ask.
use omniscient.Prelude.{
  ℕ, ◌<◌, ◌≡◌, subst, false, some, [], ◌∷◌, All, All-map, All-append_right, All-reverse, reverse,
  arith, leb, add_u64,
}
use mathlib.Core.List.{reverse-reverse}
use omniscient.Prelude.BTreeMap.Ends.{All-first_key, All-last_key}
use omniscient.Prelude.BTreeMap.Laws.{All-update_or_default}
use omniscient.Shared.Domain.{Address, OrderId, OrderSide, buy, sell}
use omniscient.Gateway.Book.{
  RestingOrder, Levels, OrderBook, match_by_side, insert, insert_by_side, push_back,
}
use omniscient.Gateway.Book.Side.{IsLevel, flat, All-fill_queue}
use omniscient.Gateway.Book.Matching.{
  IsValid, crosses, taker_of, Refines, served, match_by_side-Refines,
}
use omniscient.Gateway.Book.Insert.{flat_prices}
use omniscient.Gateway.Book.Exhaustion.{opposite_levels}
use omniscient.Gateway.Book.Cancel.{best_bid, best_ask}

-- Every price at which somebody buys is below every price at which somebody sells.
abbrev pub IsUncrossed : OrderBook → Type 0
IsUncrossed b = All (λ x. All (λ y. x.0 < y.0) b.sells) b.buys

-- No level is empty, so what holds of the prices holds of the keys.
keys_of_prices {κ} :
    (R : ℕ → Type κ) (m : Levels)
    → All IsLevel m
    → All (λ o. R o.price) (flat m)
    → All (λ e. R e.0) m
keys_of_prices R [] h r = tt
keys_of_prices R ((p, []) ∷ m) h r = cc (h.0.0)
keys_of_prices R ((p, o ∷ l) ∷ m) h r = (
  subst R h.0.2.0 r.0,
  keys_of_prices R m h.1 (All-append_right (λ x. R x.price) (o ∷ l) (flat m) r),
)

-- Matching brings no new price to the side that it consumes.
module _ {κ} (R : ℕ → Type κ) (side : OrderSide) (id : OrderId) (a : Address) (price amount : ℕ)
    (b : OrderBook) where
  match_by_side_keys :
      IsValid b
      → All (λ e. R e.0) (opposite_levels side b)
      → All (λ e. R e.0) (opposite_levels side (match_by_side side id a price amount b).0)
  match_by_side_keys v = by_side side (match_by_side-Refines side id a price amount b v)
    where
      by_side :
          (side : OrderSide)
          → let res = match_by_side side id a price amount b in
            Refines side b (served side id a price amount b) res
            → All (λ e. R e.0) (opposite_levels side b)
            → All (λ e. R e.0) (opposite_levels side res.0)
      by_side buy r h = keys_of_prices R _ r.valid.sells_levels (
          rw r.queue_eq (
            All-fill_queue (crosses buy price) (taker_of buy id a) (λ o. R o.price) (λ o k q l. q)
              amount (flat b.sells) (flat_prices R b.sells v.sells_levels h)))
      by_side sell r h = subst (All (λ e. R e.0)) (reverse-reverse _) (
          All-reverse (λ e. R e.0) _
            (keys_of_prices R _ (All-reverse IsLevel _ r.valid.buys_levels) (
              rw r.queue_eq (
                All-fill_queue (crosses sell price) (taker_of sell id a) (λ o. R o.price)
                  (λ o k q l. q) amount (flat (reverse b.buys))
                  (flat_prices R (reverse b.buys) (All-reverse IsLevel _ v.buys_levels)
                    (All-reverse (λ e. R e.0) _ h))))))

pub match_by_side-IsUncrossed :
    (side : OrderSide) (id : OrderId) (a : Address) (price amount : ℕ) (b : OrderBook)
    → IsValid b
    → IsUncrossed b
    → IsUncrossed (match_by_side side id a price amount b).0
match_by_side-IsUncrossed buy id a price amount b v u =
    let r = match_by_side-Refines buy id a price amount b v in
    rw r.own_side_eq (
      All-map (λ x. All (λ y. x.0 < y.0) b.sells) _
        (λ x h. match_by_side_keys (λ q. x.0 < q) buy id a price amount b v h) b.buys u)
match_by_side-IsUncrossed sell id a price amount b v u =
    let r = match_by_side-Refines sell id a price amount b v in
    rw r.own_side_eq
      (match_by_side_keys (λ q. All (λ y. q < y.0) b.sells) sell id a price amount b v u)

-- A sell above every bid.
push_back_above :
    (o : RestingOrder) (sells buys : Levels)
    → All (λ e. leb o.price e.0 ≡ false) buys
    → All (λ x. All (λ y. x.0 < y.0) sells) buys
    → All (λ x. All (λ y. x.0 < y.0) (push_back o sells)) buys
unfolding push_back
push_back_above o sells [] c u = tt
push_back_above o sells (x ∷ m) c u = (
  All-update_or_default (λ y. x.0 < y.0) o.price [] _ sells (ground arith) (λ l q. q) u.0,
  push_back_above o sells m c.1 u.1,
)

pub insert-IsUncrossed :
    (b : OrderBook) (o : RestingOrder)
    → All (λ e. crosses o.side o.price e.0 ≡ false) (opposite_levels o.side b)
    → IsUncrossed b
    → IsUncrossed (insert b o).0
unfolding insert insert_by_side push_back
insert-IsUncrossed b o = by_side o.side
  where
    o' : RestingOrder
    o' = record o { seq = b.next_seq }

    by_side :
        (side : OrderSide)
        → All (λ e. crosses side o.price e.0 ≡ false) (opposite_levels side b)
        → IsUncrossed b
        → IsUncrossed (insert_by_side side (record b { next_seq = add_u64 b.next_seq 1 }) o')
    by_side buy c u =
        All-update_or_default (λ x. All (λ y. x.0 < y.0) b.sells) o.price [] _ b.buys
          (All-map (λ e. leb e.0 o.price ≡ false) (λ e. o.price < e.0) (λ e q. ground arith) b.sells
            c)
          (λ l q. q) u
    by_side sell c u = push_back_above o' b.sells b.buys c u

-- In an uncrossed book the best bid is below the best ask.
pub best_bid-lt-best_ask :
    (b : OrderBook) (p q : ℕ) → IsUncrossed b → best_bid b ≡ some p → best_ask b ≡ some q → p < q
unfolding best_bid best_ask
best_bid-lt-best_ask b p q u hp hq =
    All-first_key (λ k. p < k) b.sells q
      (All-last_key (λ k. All (λ y. k < y.0) b.sells) b.buys p u hp) hq
