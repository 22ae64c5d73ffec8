-- ===== src/Gateway/Book/Exhaustion.antt =====
-- An order that is not filled has met every resting order that it crosses, and the loops stop by
-- their own tests.
use omniscient.Prelude.{
  ℕ, ◌<◌, ◌≡◌, refl, sym, subst, ◌∙◌, ◌≢◌, Bool, false, List, [], ◌∷◌, ◌++◌, All, All-map,
  All-append, All-reverse, reverse, arith, leb,
}
use mathlib.Core.List.{reverse-cons, reverse-reverse}
use omniscient.Prelude.BTreeMap.{IsSorted}
use omniscient.Shared.Domain.{Address, OrderId, OrderSide, buy, sell}
use omniscient.Gateway.Book.{RestingOrder, Levels, OrderBook, Fill, match_by_side}
use omniscient.Gateway.Book.Priority.{Outcome}
use omniscient.Gateway.Book.Side.{IsLevel, flat}
use omniscient.Gateway.Book.Matching.{
  IsValid, crosses, taker_of, served, Refines, match_by_side-Refines,
}
use omniscient.Gateway.Book.Fills.{fill_queue-stops}

-- The keys fall strictly.
abbrev pub IsFalling : Levels → Type 0
IsFalling [] = Unit
IsFalling ((k, l) ∷ m) = All (λ e. e.0 < k) m × IsFalling m

IsFalling-append :
    (k : ℕ) (l : List RestingOrder) (m : Levels)
    → IsFalling m
    → All (λ e. k < e.0) m
    → IsFalling (m ++ (k, l) ∷ [])
IsFalling-append k l [] f h = (tt, tt)
IsFalling-append k l ((j, l') ∷ m) f h =
    (All-append (λ e. e.0 < j) m ((k, l) ∷ []) f.0 (h.0, tt), IsFalling-append k l m f.1 h.1)

pub reverse-IsFalling : (m : Levels) → IsSorted m → IsFalling (reverse m)
reverse-IsFalling [] h = tt
reverse-IsFalling ((k, l) ∷ m) h =
    rw (reverse-cons (k, l) m) (
      IsFalling-append k l (reverse m) (reverse-IsFalling m h.1) (All-reverse (λ e. k < e.0) m h.0))

-- If the first order of the sells does not cross, none does.
none_cross_rising :
    (price : ℕ) (m : Levels)
    → IsSorted m
    → All IsLevel m
    → ((o : RestingOrder) (q : List RestingOrder) → flat m ≡ o ∷ q → leb o.price price ≡ false)
    → All (λ e. leb e.0 price ≡ false) m
none_cross_rising price [] s h f = tt
none_cross_rising price ((k, []) ∷ m) s h f = cc (h.0.0)
none_cross_rising price ((k, o ∷ l) ∷ m) s h f =
    let first : leb k price ≡ false = rw (← h.0.2.0) (f o (l ++ flat m) refl) in
    (first, All-map (λ e. k < e.0) (λ e. leb e.0 price ≡ false) (λ e q. ground arith) m s.0)

none_cross_falling :
    (price : ℕ) (m : Levels)
    → IsFalling m
    → All IsLevel m
    → ((o : RestingOrder) (q : List RestingOrder) → flat m ≡ o ∷ q → leb price o.price ≡ false)
    → All (λ e. leb price e.0 ≡ false) m
none_cross_falling price [] s h f = tt
none_cross_falling price ((k, []) ∷ m) s h f = cc (h.0.0)
none_cross_falling price ((k, o ∷ l) ∷ m) s h f =
    let first : leb price k ≡ false = rw (← h.0.2.0) (f o (l ++ flat m) refl) in
    (first, All-map (λ e. e.0 < k) (λ e. leb price e.0 ≡ false) (λ e q. ground arith) m s.0)

-- The levels that an order of this side meets.
abbrev pub opposite_levels : OrderSide → OrderBook → Levels
opposite_levels buy b = b.sells
opposite_levels sell b = b.buys

something_left :
    {side : OrderSide} {b : OrderBook} (r : Outcome) (res : OrderBook × List Fill × Bool)
    → Refines side b r res
    → res.2 ≡ false
    → r.left ≢ 0
something_left r res h e z = ground (arith, h.full_eq)

-- On a valid book, an order that is not fully filled leaves no level behind that it crosses.
pub match_by_side_exhausts :
    (side : OrderSide) (id : OrderId) (a : Address) (price amount : ℕ) (b : OrderBook)
    → IsValid b
    → let res = match_by_side side id a price amount b in
      res.2 ≡ false → All (λ e. crosses side price e.0 ≡ false) (opposite_levels side res.0)
match_by_side_exhausts side id a price amount b v open_left =
    by_side side (match_by_side-Refines side id a price amount b v) open_left
  where
    by_side :
        (side : OrderSide)
        → let res = match_by_side side id a price amount b in
          Refines side b (served side id a price amount b) res
          → res.2 ≡ false
          → All (λ e. crosses side price e.0 ≡ false) (opposite_levels side res.0)
    by_side buy r e = none_cross_rising price _ r.valid.sells_sorted r.valid.sells_levels (λ o q h.
        fill_queue-stops (crosses buy price) (taker_of buy id a) amount (flat b.sells) o q
          (sym r.queue_eq ∙ h) (something_left _ _ r e))
    by_side sell r e = subst (All (λ e. leb price e.0 ≡ false)) (reverse-reverse _) (
        All-reverse (λ e. leb price e.0 ≡ false) _
          (none_cross_falling price _ (reverse-IsFalling _ r.valid.buys_sorted)
            (All-reverse IsLevel _ r.valid.buys_levels)
            (λ o q h.
              fill_queue-stops (crosses sell price) (taker_of sell id a) amount
                (flat (reverse b.buys)) o q (sym r.queue_eq ∙ h) (something_left _ _ r e))))
