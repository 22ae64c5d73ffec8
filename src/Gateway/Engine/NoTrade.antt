-- ===== src/Gateway/Engine/NoTrade.antt =====
-- What follows from the `filled` that the matcher gives a resting order.
use omniscient.Prelude.{
  ℕ, ◌-◌, ◌<◌, ◌≡◌, refl, subst, Bool, List, [], ◌∷◌, All, All-append, All-append_left,
  All-append_right, All-filter, reverse, arith, not, Bool-cases, inl, inr, u64_mod,
}
use mathlib.Core.List.{reverse-reverse}
use omniscient.Shared.Domain.{Address, OrderId, OrderSide, buy, sell}
use omniscient.Gateway.Book.{
  RestingOrder, Taker, Fill, Levels, MatchResult, OrderBook, new, insert, make_fill,
}
use omniscient.Gateway.Book.Priority.{IsSound, open_amount, fill_queue}
use omniscient.Gateway.Book.Side.{flat, All-fill_queue}
use omniscient.Gateway.Book.Matching.{IsValid, opposite, own_side, crosses, taker_of}
use omniscient.Gateway.Book.Fills.{total}
use omniscient.Gateway.Book.Insert.{flat-reverse, enqueue, other_side, insert-enqueue}
use omniscient.Gateway.Book.Cancel
use omniscient.Gateway.Book.Cancel.{prune}
use omniscient.Gateway.Book.Cancel.Validity.{flat-retain_full}
use omniscient.Gateway.Book.Cancel.Laws.{
  resting, erase_id, is_of, cancel-resting, cancel_all-resting,
}
use omniscient.Gateway.Engine.{PlaceOrder, MatchCommand, Books, place, rest_order, run_matcher}
use omniscient.Gateway.Engine.Place.{
  matched, rested, matched-Refines, place_full, place_rest, place-IsValid, rest-IsSound,
  rest_filled,
}
use omniscient.Gateway.Engine.Invariant.{
  IsHealthy, new-IsHealthy, cancel-IsHealthy, cancel_all-IsHealthy, place-IsUncrossed,
}
use omniscient.Gateway.Engine.Run.{Fits, AllBooks, run_matcher_inv}

-- Nothing of the order is left to fill.
abbrev pub IsSpent : RestingOrder → Type 0
IsSpent o = open_amount o ≡ 0

abbrev pub IsEmpty : Fill → Type 0
IsEmpty f = f.amount ≡ 0

-- Matching against spent orders fills nothing.
fill_queue-IsEmpty :
    (crosses : ℕ → Bool) (t : Taker) (left : ℕ) (l : List RestingOrder)
    → All IsSpent l
    → All IsEmpty (fill_queue crosses t left l).fills
unfolding fill_queue make_fill
fill_queue-IsEmpty crosses t left [] h = tt
fill_queue-IsEmpty crosses t left (o ∷ l) h = ground (
  arith,
  h.0,
  fill_queue-IsEmpty crosses t left l h.1,
  fill_queue-IsEmpty crosses t (left - open_amount o) l h.1,
)

total_zero : (fs : List Fill) → All IsEmpty fs → total fs ≡ 0
total_zero [] h = refl
total_zero (f ∷ fs) h = omega (arith, h.0, total_zero fs h.1)

-- The order of the levels does not matter.
All-flat-reverse {κ} :
    (P : RestingOrder → Type κ) (m : Levels) → All P (flat m) → All P (flat (reverse m))
All-flat-reverse P [] h = tt
All-flat-reverse P ((p, l) ∷ m) h = rw (flat-reverse p l m) (
    All-append P (flat (reverse m)) l (All-flat-reverse P m (All-append_right P l (flat m) h))
      (All-append_left P l (flat m) h))

All-flat_of_reverse {κ} :
    (P : RestingOrder → Type κ) (m : Levels) → All P (flat (reverse m)) → All P (flat m)
All-flat_of_reverse P m h =
    subst (λ q. All P (flat q)) (reverse-reverse m) (All-flat-reverse P (reverse m) h)

All-enqueue {κ} :
    (P : RestingOrder → Type κ) (side : OrderSide) (o : RestingOrder) (l : List RestingOrder)
    → P o
    → All P l
    → All P (enqueue side o l)
All-enqueue P side o [] p h = (p, tt)
All-enqueue P side o (x ∷ l) p h = ground (arith, All-enqueue P side o l p h.1)

All-erase_id {κ} :
    (P : RestingOrder → Type κ) (id : OrderId) (l : List RestingOrder)
    → All P l
    → All P (erase_id id l)
All-erase_id P id [] h = tt
All-erase_id P id (o ∷ l) h = ground (arith, All-erase_id P id l h.1)

-- All orders of a book, by the two queues.
abbrev AllQueued : (OrderBook) → Type 0
AllQueued b = All IsSpent (opposite buy b) × All IsSpent (opposite sell b)

to_queues : (b : OrderBook) → All IsSpent (resting b) → AllQueued b
to_queues b h = (
  All-append_right IsSpent (flat b.buys) (flat b.sells) h,
  All-flat-reverse IsSpent b.buys (All-append_left IsSpent (flat b.buys) (flat b.sells) h),
)

of_queues : (b : OrderBook) → AllQueued b → All IsSpent (resting b)
of_queues b h =
    All-append IsSpent (flat b.buys) (flat b.sells) (All-flat_of_reverse IsSpent b.buys h.1) h.0

insert-AllQueued :
    (b : OrderBook) (o : RestingOrder)
    → IsValid b
    → IsSound o
    → IsSpent o
    → AllQueued b
    → AllQueued (insert b o).0
insert-AllQueued b o v s p h = let e = insert-enqueue b o v s in by_side o.side (rw e.1 p) e.3 e.4
  where
    by_side :
        (side : OrderSide)
        → IsSpent (insert b o).1
        → opposite (other_side side) (insert b o).0
          ≡ enqueue side (insert b o).1 (opposite (other_side side) b)
        → opposite side (insert b o).0 ≡ opposite side b
        → AllQueued (insert b o).0
    by_side buy p' e e' = (rw e' h.0, rw e (All-enqueue IsSpent buy _ (opposite sell b) p' h.1))
    by_side sell p' e e' = (rw e (All-enqueue IsSpent sell _ (opposite buy b) p' h.0), rw e' h.1)

module _ (c : PlaceOrder) (b : OrderBook) (v : IsValid b) (spent : All IsSpent (resting b)) where
  queue-IsSpent : All IsSpent (opposite c.side (matched c b).0)
  queue-IsSpent = rw (matched-Refines c b v).queue_eq (
      All-fill_queue (crosses c.side c.price) (taker_of c.side c.order_id c.maker) IsSpent
        (λ o k h q. omega arith) c.amount (opposite c.side b) (by_side c.side))
    where
      by_side : (side : OrderSide) → All IsSpent (opposite side b)
      by_side buy = (to_queues b spent).0
      by_side sell = (to_queues b spent).1

  matched-AllQueued : AllQueued (matched c b).0
  matched-AllQueued = by_side c.side (matched-Refines c b v).own_side_eq queue-IsSpent
    where
      by_side :
          (side : OrderSide)
          → own_side side (matched c b).0 ≡ own_side side b
          → All IsSpent (opposite side (matched c b).0)
          → AllQueued (matched c b).0
      by_side buy e h = (h, rw e (to_queues b spent).1)
      by_side sell e h = (rw e (to_queues b spent).0, h)

  fills-IsEmpty : All IsEmpty (matched c b).1
  fills-IsEmpty = rw (matched-Refines c b v).fills_eq (
      fill_queue-IsEmpty (crosses c.side c.price) (taker_of c.side c.order_id c.maker) c.amount
        (opposite c.side b) (by_side c.side))
    where
      by_side : (side : OrderSide) → All IsSpent (opposite side b)
      by_side buy = (to_queues b spent).0
      by_side sell = (to_queues b spent).1

  module _ (fits : c.amount < u64_mod) where
    rest-IsSpent : IsSpent (rest_order c (matched c b).1)
    unfolding rest_order
    rest-IsSpent =
        let f = rest_filled c b v fits in
        let z = total_zero (matched c b).1 fills-IsEmpty in omega arith

    rested-AllQueued : AllQueued (rested c b).0
    rested-AllQueued =
        insert-AllQueued (matched c b).0 (rest_order c (matched c b).1)
          (matched-Refines c b v).valid (rest-IsSound c b v fits) rest-IsSpent matched-AllQueued

    place-IsSpent : All IsSpent (resting (place c b).0) × All IsEmpty (place c b).1.fills
    place-IsSpent = elim (Bool-cases (matched c b).2) [
      | inl full ↦
          rw (place_full c b v full) (of_queues (matched c b).0 matched-AllQueued, fills-IsEmpty)
      | inr open_left ↦
          rw (place_rest c b v fits open_left)
            (of_queues (rested c b).0 rested-AllQueued, fills-IsEmpty)
    ]

abbrev pub IsDead : OrderBook → Type 0
IsDead b = IsHealthy b × All IsSpent (resting b)

resting-prune : (b : OrderBook) → resting (prune b) ≡ resting b
unfolding prune
resting-prune b = rw (flat-retain_full b.buys, flat-retain_full b.sells)

cancel-IsDead : (id : OrderId) (b : OrderBook) → IsDead b → IsDead (prune (Cancel.cancel id b).0)
cancel-IsDead id b h = (
  cancel-IsHealthy id b h.0,
  rw (resting-prune (Cancel.cancel id b).0, (cancel-resting id b).1)
      (All-erase_id IsSpent id (resting b) h.1),
)

cancel_all-IsDead :
    (a : Address) (b : OrderBook) → IsDead b → IsDead (prune (Cancel.cancel_all a b).0)
cancel_all-IsDead a b h = (
  cancel_all-IsHealthy a b h.0,
  rw (resting-prune (Cancel.cancel_all a b).0, (cancel_all-resting a b).0)
      (All-filter IsSpent (λ o. not (is_of a o)) (resting b) h.1),
)

new-IsSpent : All IsSpent (resting new)
unfolding new
new-IsSpent = tt

abbrev pub HasNoTrade : MatchResult → Type 0
HasNoTrade r = All IsEmpty r.fills

-- The matcher that starts with no resting liquidity never trades: if nothing is left to fill in
-- any order of its books (as when it has no books), then, whatever commands with u64 amounts it
-- handles, every fill of every result that it sends has the amount 0.
pub run_matcher-HasNoTrade :
    (cmds : List (MatchCommand × Bool)) (books : Books)
    → All Fits cmds
    → AllBooks IsDead books
    → All HasNoTrade (run_matcher cmds books []).1
run_matcher-HasNoTrade cmds books fit h =
    (run_matcher_inv IsDead HasNoTrade (new-IsHealthy, new-IsSpent)
      (λ c b f k.
        let s = place-IsSpent c b k.0.0 k.1 f in
        (((place-IsValid c b k.0.0 f, place-IsUncrossed c b k.0.0 f k.0.1), s.0), s.1))
      cancel-IsDead cancel_all-IsDead cmds books [] fit h tt).1
