-- ===== src/Gateway/Engine/Place.antt =====
-- The arm of `PlaceOrder` on one book.
use omniscient.Prelude.{
  ℕ, ◌+◌, ◌<◌, ◌≤◌, ◌≡◌, refl, subst, ◌∙◌, ◌↔◌, Bool, true, false, none, some, List, [], ◌∷◌, foldl,
  arith, Bool-cases, inl, inr, u64_mod, add_u64,
}
use omniscient.Gateway.Book.{RestingOrder, Fill, OrderBook, match_by_side, insert, remaining}
use omniscient.Gateway.Book.Priority.{IsSound, Outcome, remaining-eq-open_amount}
use omniscient.Gateway.Book.Matching.{
  IsValid, opposite, crosses, taker_of, served, Refines, match_by_side-Refines,
}
use omniscient.Gateway.Book.Fills.{total, fill_queue-total}
use omniscient.Gateway.Book.Cancel.Validity.{prune-id}
use omniscient.Gateway.Book.Insert.{insert-enqueue}
use omniscient.Gateway.Engine.{PlaceOrder, place, rest_order, sum_amounts}

foldl-total :
    (acc : ℕ) (fs : List Fill)
    → acc + total fs < u64_mod
    → foldl (λ a (f : Fill). add_u64 a f.amount) acc fs ≡ acc + total fs
foldl-total acc [] h = omega arith
foldl-total acc (f ∷ fs) h =
    let e : add_u64 acc f.amount ≡ acc + f.amount = omega arith in
    rw e (foldl-total (acc + f.amount) fs (omega arith) ∙ omega arith)

sum_amounts-total : (fs : List Fill) → total fs < u64_mod → sum_amounts fs ≡ total fs
unfolding sum_amounts
sum_amounts-total fs h = foldl-total 0 fs (omega arith) ∙ omega arith

-- The incoming order against the book.
abbrev pub matched : PlaceOrder → OrderBook → OrderBook × List Fill × Bool
matched c b = match_by_side c.side c.order_id c.maker c.price c.amount b

abbrev pub outcome : PlaceOrder → OrderBook → Outcome
outcome c b = served c.side c.order_id c.maker c.price c.amount b

-- The book and the order after the remainder was inserted.
abbrev pub rested : PlaceOrder → OrderBook → OrderBook × RestingOrder
rested c b = insert (matched c b).0 (rest_order c (matched c b).1)

-- What an order that rests takes over from the incoming one.
abbrev pub TakesOver : PlaceOrder → RestingOrder → Type 0
TakesOver c o =
    (o.order_id ≡ c.order_id)
    × (o.maker ≡ c.maker)
    × (o.price ≡ c.price)
    × (o.amount ≡ c.amount)
    × (o.side ≡ c.side)

module _ (c : PlaceOrder) (b : OrderBook) (v : IsValid b) where
  pub matched-Refines : Refines c.side b (outcome c b) (matched c b)
  matched-Refines = match_by_side-Refines c.side c.order_id c.maker c.price c.amount b v

  total-matched : total (matched c b).1 + (outcome c b).left ≡ c.amount
  total-matched = rw matched-Refines.fills_eq (
      fill_queue-total (crosses c.side c.price) (taker_of c.side c.order_id c.maker) c.amount
        (opposite c.side b))

  pub full_total : ((matched c b).2 ≡ true) ↔ (total (matched c b).1 ≡ c.amount)
  full_total = (
    λ h. let e = matched-Refines.full_eq in let t = total-matched in ground arith,
    λ h. let e = matched-Refines.full_eq in let t = total-matched in ground arith,
  )

  pub total-le : total (matched c b).1 ≤ c.amount
  total-le = omega (arith, total-matched)

  -- The arm, where the order is used up.
  pub place_full :
      (matched c b).2 ≡ true
      → place c b ≡ (
        (matched c b).0,
        record {
          market_id = c.market_id;
          fills = (matched c b).1;
          resting = none;
          fully_filled = true;
        },
      )
  unfolding place
  place_full h = rw (h, prune-id (matched c b).0 matched-Refines.valid)

  module _ (fits : c.amount < u64_mod) where
    -- The order that rests: what it counts as filled is what the fills left open.
    pub rest_filled : (rest_order c (matched c b).1).filled + total (matched c b).1 ≡ c.amount
    unfolding rest_order
    rest_filled =
        let t = total-matched in rw (sum_amounts-total (matched c b).1 (omega arith)) (omega arith)

    pub rest-IsSound : IsSound (rest_order c (matched c b).1)
    unfolding rest_order
    rest-IsSound = record { filled_le = let t = rest_filled in omega arith; amount_lt = fits }

    pub rested-IsValid : IsValid (rested c b).0
    rested-IsValid = (insert-enqueue (matched c b).0 _ matched-Refines.valid rest-IsSound).0

    rested_order :
        (rested c b).1 ≡ record (rest_order c (matched c b).1) { seq = (matched c b).0.next_seq }
    rested_order = (insert-enqueue (matched c b).0 _ matched-Refines.valid rest-IsSound).1

    rested-TakesOver : TakesOver c (rested c b).1
    unfolding rest_order
    rested-TakesOver = rw rested_order (refl, refl, refl, refl, refl)

    -- The arm, where a remainder rests.
    pub place_rest :
        (matched c b).2 ≡ false
        → place c b ≡ (
          (rested c b).0,
          record {
            market_id = c.market_id;
            fills = (matched c b).1;
            resting = some (rested c b).1;
            fully_filled = false;
          },
        )
    unfolding place
    place_rest h = rw (h, prune-id (rested c b).0 rested-IsValid)

    -- A valid book stays valid.
    pub place-IsValid : IsValid (place c b).0
    place-IsValid = elim (Bool-cases (matched c b).2) [
      | inl full ↦ rw (place_full full) matched-Refines.valid
      | inr open_left ↦ rw (place_rest open_left) rested-IsValid
    ]

    -- On a valid book, the fills come to no more than the order's amount; the order is reported as
    -- fully filled, and nothing rests, exactly when they come to all of it; otherwise an order with
    -- the id, the maker, the price, the amount and the side of the incoming one rests.
    pub place_accounts :
        let r = (place c b).1 in
        (total r.fills ≤ c.amount)
        × ((r.fully_filled ≡ true) ↔ (total r.fills ≡ c.amount))
        × ((r.resting ≡ none) ↔ (r.fully_filled ≡ true))
        × ((o : RestingOrder) → r.resting ≡ some o → TakesOver c o)
    place_accounts = elim (Bool-cases (matched c b).2) [
      | inl full ↦
          rw (place_full full)
            (total-le, (λ h. full_total.0 full, λ h. refl), (λ h. refl, λ h. refl), λ o h. cc)
      | inr open_left ↦ rw (place_rest open_left) (
        total-le,
        (λ h. cc, λ h. cc (full_total.1 h)),
        (λ h. cc, λ h. cc),
        λ o h. let e : (rested c b).1 ≡ o = cc in subst (TakesOver c) e rested-TakesOver,
      )
    ]

    rested_offers : remaining (rested c b).1 ≡ total (matched c b).1
    unfolding rest_order
    rested_offers =
        let f = rest_filled in
        let k = rest-IsSound in
        rw rested_order (
          remaining-eq-open_amount _ (record { filled_le = k.filled_le; amount_lt = fits })
          ∙ omega arith)

    -- What the resting order still offers is what was filled just now, and not what was left.
    pub place-resting_offers :
        (o : RestingOrder)
        → (place c b).1.resting ≡ some o
        → remaining o ≡ total (place c b).1.fills
    place-resting_offers o = elim (Bool-cases (matched c b).2) [
      | inl full ↦ rw (place_full full) (λ h. cc)
      | inr open_left ↦ rw (place_rest open_left) (λ h.
          let e : (rested c b).1 ≡ o = cc in
          subst (λ x. remaining x ≡ total (matched c b).1) e rested_offers)
    ]
