-- ===== src/Gateway/Engine/Invariant.antt =====
-- Every book of the matcher stays valid and uncrossed.
use omniscient.Prelude.{◌<◌, Bool, List, [], All, Bool-cases, inl, inr, u64_mod}
use omniscient.Shared.Domain.{Address, OrderId}
use omniscient.Gateway.Book.{OrderBook, new}
use omniscient.Gateway.Book.Matching.{IsValid}
use omniscient.Gateway.Book.Exhaustion.{match_by_side_exhausts}
use omniscient.Gateway.Book.Uncrossed.{IsUncrossed, match_by_side-IsUncrossed, insert-IsUncrossed}
use omniscient.Gateway.Book.Cancel
use omniscient.Gateway.Book.Cancel.{prune}
use omniscient.Gateway.Book.Cancel.Validity.{
  IsValid-IsUnpruned, cancel-IsUnpruned, cancel_all-IsUnpruned, prune-IsValid,
}
use omniscient.Gateway.Book.Cancel.Shrink.{
  Shrinks-IsUncrossed, prune-Shrinks, cancel-Shrinks, cancel_all-Shrinks,
}
use omniscient.Gateway.Engine.{PlaceOrder, MatchCommand, Books, place, rest_order, run_matcher}
use omniscient.Gateway.Engine.Place.{matched, place_full, place_rest, place-IsValid}
use omniscient.Gateway.Engine.Run.{Fits, AllBooks, run_matcher_inv}

abbrev pub IsHealthy : OrderBook → Type 0
IsHealthy b = IsValid b × IsUncrossed b

-- An order that rests does so below every ask, or above every bid.
pub place-IsUncrossed :
    (c : PlaceOrder) (b : OrderBook)
    → IsValid b
    → c.amount < u64_mod
    → IsUncrossed b
    → IsUncrossed (place c b).0
unfolding rest_order
place-IsUncrossed c b v fits u =
    let m = match_by_side-IsUncrossed c.side c.order_id c.maker c.price c.amount b v u in
    elim (Bool-cases (matched c b).2) [
      | inl full ↦ rw (place_full c b v full) m
      | inr open_left ↦ rw (place_rest c b v fits open_left) (
          insert-IsUncrossed (matched c b).0 _
            (match_by_side_exhausts c.side c.order_id c.maker c.price c.amount b v open_left) m)
    ]

pub new-IsHealthy : IsHealthy new
unfolding new
new-IsHealthy =
    (record { buys_sorted = tt; buys_levels = tt; sells_sorted = tt; sells_levels = tt }, tt)

pub cancel-IsHealthy :
    (id : OrderId) (b : OrderBook) → IsHealthy b → IsHealthy (prune (Cancel.cancel id b).0)
cancel-IsHealthy id b h = (
  prune-IsValid _ (cancel-IsUnpruned id b (IsValid-IsUnpruned b h.0)),
  Shrinks-IsUncrossed (prune-Shrinks _ (cancel-Shrinks id b)) h.1,
)

pub cancel_all-IsHealthy :
    (a : Address) (b : OrderBook) → IsHealthy b → IsHealthy (prune (Cancel.cancel_all a b).0)
cancel_all-IsHealthy a b h = (
  prune-IsValid _ (cancel_all-IsUnpruned a b (IsValid-IsUnpruned b h.0)),
  Shrinks-IsUncrossed (prune-Shrinks _ (cancel_all-Shrinks a b)) h.1,
)

-- Whatever commands with u64 amounts the thread handles, and whether or not the result channel is
-- open: if all its books were valid and uncrossed, all its books are, the new ones included.
pub run_matcher-IsHealthy :
    (cmds : List (MatchCommand × Bool)) (books : Books)
    → All Fits cmds
    → AllBooks IsHealthy books
    → AllBooks IsHealthy (run_matcher cmds books []).0
run_matcher-IsHealthy cmds books fit h =
    (run_matcher_inv IsHealthy (λ r. Unit {0}) new-IsHealthy
      (λ c b f k. ((place-IsValid c b k.0 f, place-IsUncrossed c b k.0 f k.1), tt)) cancel-IsHealthy
      cancel_all-IsHealthy cmds books [] fit h tt).0
