-- ===== src/Gateway/Book/Priority.antt =====
-- What matching promises: one pass over the resting orders in their priority, with no price
-- levels, loops or fuel.
use omniscient.Prelude.{
  ℕ, ◌+◌, ◌-◌, ◌≤◌, ◌<◌, ◌≡◌, Bool, List, [], ◌∷◌, ltb, ◌==◌, if◌then◌else◌, u64_mod, sub_u64-eq,
}
use omniscient.Shared.Domain.{address_eq}
use omniscient.Gateway.Book.{RestingOrder, Fill, Taker, make_fill, remaining}

-- No more is filled than was ordered, and the amount is a u64.
pub record IsSound (o : RestingOrder) : Type 0 where
  pub filled_le : o.filled ≤ o.amount
  pub amount_lt : o.amount < u64_mod

-- What an order still offers.
abbrev pub open_amount : RestingOrder → ℕ
open_amount o = o.amount - o.filled

pub remaining-eq-open_amount : (o : RestingOrder) → IsSound o → remaining o ≡ open_amount o
unfolding remaining
remaining-eq-open_amount o h = sub_u64-eq o.amount o.filled h.filled_le h.amount_lt

pub record Outcome : Type 0 where
  pub left : ℕ
  pub queue : List RestingOrder
  pub fills : List Fill

abbrev pub add_fill : Fill → Outcome → Outcome
add_fill f r = record r { fills = f ∷ r.fills }

-- Serve the queue from its front: drop the taker's own orders, and fill the others as long as
-- something is left to fill and the price crosses.
unfoldable pub fill_queue : (ℕ → Bool) → Taker → ℕ → List RestingOrder → Outcome
fill_queue crosses t left [] = record { left = left; queue = []; fills = [] }
fill_queue crosses t left (o ∷ os) =
    let skipped = fill_queue crosses t left os in
    let served = fill_queue crosses t (left - open_amount o) os in
    if left == 0
    then record { left = 0; queue = o ∷ os; fills = [] }
    else if crosses o.price
    then (if address_eq o.maker t.address
        then skipped
        else if ltb left (open_amount o)
        then record {
          left = 0;
          queue = record o { filled = o.filled + left } ∷ os;
          fills = make_fill t o left ∷ [];
        }
        else add_fill (make_fill t o (open_amount o)) served)
    else record { left = left; queue = o ∷ os; fills = [] }
