-- ===== src/Gateway/Book/Fills.antt =====
-- What a taker and the makers can count on: laws of the specification.
use omniscient.Prelude.{
  ℕ, ◌+◌, ◌-◌, ◌≡◌, ◌≢◌, Bool, true, false, List, [], ◌∷◌, All, if◌then◌else◌, arith,
}
use omniscient.Shared.Domain.{Address, address_eq, address_eq_iff}
use omniscient.Gateway.Book.{RestingOrder, Taker, Fill, make_fill}
use omniscient.Gateway.Book.Priority.{IsSound, open_amount, fill_queue}

abbrev pub total : List Fill → ℕ
total [] = 0
total (f ∷ fs) = f.amount + total fs

-- What the orders of one maker still offer.
abbrev pub offered : Address → List RestingOrder → ℕ
offered m [] = 0
offered m (o ∷ l) = (if address_eq o.maker m then open_amount o else 0) + offered m l

-- What one maker was filled.
abbrev pub sold : Address → List Fill → ℕ
sold m [] = 0
sold m (f ∷ fs) = (if address_eq f.maker m then f.amount else 0) + sold m fs

module _ (crosses : ℕ → Bool) (t : Taker) where
  pub fill_queue-total :
      (left : ℕ) (l : List RestingOrder)
      → let r = fill_queue crosses t left l in total r.fills + r.left ≡ left
  unfolding fill_queue make_fill
  fill_queue-total left [] = omega arith
  fill_queue-total left (o ∷ l) =
      ground (arith, fill_queue-total left l, fill_queue-total (left - open_amount o) l)

  -- A fill at a crossing price between the taker and somebody else.
  abbrev pub IsFair : Fill → Type 0
  IsFair f =
      (address_eq f.maker t.address ≡ false)
      × (f.taker ≡ t.address)
      × (f.taker_order_id ≡ t.order_id)
      × (f.taker_side ≡ t.side)
      × (crosses f.price ≡ true)

  pub fill_queue-IsFair :
      (left : ℕ) (l : List RestingOrder) → All IsFair (fill_queue crosses t left l).fills
  unfolding fill_queue make_fill
  fill_queue-IsFair left [] = tt
  fill_queue-IsFair left (o ∷ l) =
      ground (arith, fill_queue-IsFair left l, fill_queue-IsFair (left - open_amount o) l)

  -- Where something is left to fill, the order at the front does not cross.
  pub fill_queue-stops :
      (left : ℕ) (l : List RestingOrder) (o : RestingOrder) (q : List RestingOrder)
      → (fill_queue crosses t left l).queue ≡ o ∷ q
      → (fill_queue crosses t left l).left ≢ 0
      → crosses o.price ≡ false
  unfolding fill_queue
  fill_queue-stops left [] o q h n = cc
  fill_queue-stops left (x ∷ l) o q h n =
      ground (arith, fill_queue-stops left l o q, fill_queue-stops (left - open_amount x) l o q)

  -- For each other maker, what was offered is what is still offered and what was filled.
  pub fill_queue-offered :
      (m : Address) (left : ℕ) (l : List RestingOrder)
      → address_eq t.address m ≡ false
      → All IsSound l
      → let r = fill_queue crosses t left l in offered m l ≡ offered m r.queue + sold m r.fills
  unfolding fill_queue make_fill
  fill_queue-offered m left [] h v = omega arith
  fill_queue-offered m left (o ∷ l) h v = ground (
    arith,
    v.0.filled_le,
    address_eq_iff o.maker t.address,
    fill_queue-offered m left l h v.1,
    fill_queue-offered m (left - open_amount o) l h v.1,
  )
