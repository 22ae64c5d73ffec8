-- ===== src/Gateway/Book/Cancel/Validity.antt =====
-- Cancellations keep a book valid but for empty levels, and `prune` drops those.
use omniscient.Prelude.{
  ℕ, zero, suc, ◌+◌, ◌<◌, ◌≡◌, refl, ap, Bool, true, false, not, Option, none, some, List, [], ◌∷◌,
  All, All-map, All-filter, All-remove_at, length, is_empty, get_elem?, remove_at, Bool-cases,
  Option-cases, ◌++◌, arith, inl, inr,
}
use omniscient.Prelude.BTreeMap.{IsSorted}
use omniscient.Shared.Domain.{Address, OrderId, address_eq}
use omniscient.Gateway.Book.{RestingOrder, Levels, OrderBook}
use omniscient.Gateway.Book.Priority.{IsSound}
use omniscient.Gateway.Book.Side.{IsLevel, flat}
use omniscient.Gateway.Book.Matching.{IsValid}
use omniscient.Gateway.Book.Cancel.{
  position, cancel_in, cancel, cancel_level, cancel_levels, cancel_all, retain_full, prune,
}

-- A level that may be empty.
abbrev pub IsPriced : ℕ × List RestingOrder → Type 0
IsPriced (p, l) = All IsSound l × All (λ o. o.price ≡ p) l

abbrev pub Keeps {κ} : (ℕ × List RestingOrder → Type κ) → Type κ
Keeps P = (p i : ℕ) (l : List RestingOrder) → P (p, l) → P (p, remove_at i l)

above-Keeps : (k : ℕ) → Keeps (λ e. k < e.0)
above-Keeps k p i l h = h

IsPriced-Keeps : Keeps IsPriced
IsPriced-Keeps p i l h = (All-remove_at IsSound i l h.0, All-remove_at (λ o. o.price ≡ p) i l h.1)

pub record IsOrdered (m : Levels) : Type 0 where
  pub sorted : IsSorted m
  pub priced : All IsPriced m

-- A book whose levels may be empty.
pub record IsUnpruned (b : OrderBook) : Type 0 where
  pub buys : IsOrdered b.buys
  pub sells : IsOrdered b.sells

abbrev pub OnSome {ℓ κ} : {A : Type ℓ} → (A → Type κ) → Option A → Type κ
OnSome P none = Unit
OnSome P (some a) = P a

module _ {κ} (P : ℕ × List RestingOrder → Type κ) (keeps : Keeps P) where
  pub cancel_in-All : (id : OrderId) (m : Levels) → All P m → OnSome (All P) (cancel_in id m)
  unfolding cancel_in
  cancel_in-All id [] h = tt
  cancel_in-All id ((p, l) ∷ m) h = step (position id l) (cancel_in id m) (cancel_in-All id m h.1)
    where
      step :
          (r : Option ℕ) (r' : Option Levels)
          → OnSome (All P) r'
          → OnSome (All P) (elim r [
            | some pos ↦ some ((p, remove_at pos l) ∷ m)
            | none ↦ elim r' [ none ↦ none | some m' ↦ some ((p, l) ∷ m') ]
          ])
      step (some i) r' k = (keeps p i l h.0, h.1)
      step none (some m') k = (h.0, k)
      step none none k = tt

  cancel_level-keeps :
      (fuel : ℕ) (maker : Address) (i p : ℕ) (l : List RestingOrder) (removed : List OrderId)
      → P (p, l)
      → P (p, (cancel_level fuel maker i l removed).0)
  unfolding cancel_level
  cancel_level-keeps zero maker i p l removed h = h
  cancel_level-keeps (suc fuel) maker i p l removed h = elim (Option-cases (get_elem? l i)) [
    | inl past ↦ rw (past, cancel_level) h
    | inr (o, there) ↦ elim (Bool-cases (address_eq o.maker maker)) [
      | inl own ↦
          rw (there, own, cancel_level)
            (cancel_level-keeps fuel maker i p (remove_at i l) (removed ++ o.order_id ∷ [])
              (keeps p i l h))
      | inr other ↦
          rw (there, other, cancel_level) (cancel_level-keeps fuel maker (i + 1) p l removed h)
    ]
  ]

  pub cancel_levels-All :
      (maker : Address) (m : Levels) (removed : List OrderId)
      → All P m
      → All P (cancel_levels maker m removed).0
  unfolding cancel_levels
  cancel_levels-All maker [] removed h = tt
  cancel_levels-All maker ((p, l) ∷ m) removed h =
      (cancel_level-keeps (suc (length l)) maker 0 p l removed h.0, cancel_levels-All maker m _ h.1)

cancel_in-IsSorted : (id : OrderId) (m : Levels) → IsSorted m → OnSome IsSorted (cancel_in id m)
unfolding cancel_in
cancel_in-IsSorted id [] h = tt
cancel_in-IsSorted id ((p, l) ∷ m) h =
    step (position id l) (cancel_in id m) (cancel_in-IsSorted id m h.1)
      (cancel_in-All (λ e. p < e.0) (above-Keeps p) id m h.0)
  where
    step :
        (r : Option ℕ) (r' : Option Levels)
        → OnSome IsSorted r'
        → OnSome (All (λ e. p < e.0)) r'
        → OnSome IsSorted (elim r [
          | some pos ↦ some ((p, remove_at pos l) ∷ m)
          | none ↦ elim r' [ none ↦ none | some m' ↦ some ((p, l) ∷ m') ]
        ])
    step (some i) r' k a = h
    step none (some m') k a = (a, k)
    step none none k a = tt

cancel_in-IsOrdered : (id : OrderId) (m : Levels) → IsOrdered m → OnSome IsOrdered (cancel_in id m)
cancel_in-IsOrdered id m h =
    join (cancel_in id m) (cancel_in-IsSorted id m h.sorted)
      (cancel_in-All IsPriced IsPriced-Keeps id m h.priced)
  where
    join : (r : Option Levels) → OnSome IsSorted r → OnSome (All IsPriced) r → OnSome IsOrdered r
    join none a b = tt
    join (some m') a b = record { sorted = a; priced = b }

pub cancel-IsUnpruned : (id : OrderId) (b : OrderBook) → IsUnpruned b → IsUnpruned (cancel id b).0
unfolding cancel
cancel-IsUnpruned id b h =
    step (cancel_in id b.buys) (cancel_in id b.sells) (cancel_in-IsOrdered id b.buys h.buys)
      (cancel_in-IsOrdered id b.sells h.sells)
  where
    step :
        (r r' : Option Levels)
        → OnSome IsOrdered r
        → OnSome IsOrdered r'
        → let c : OrderBook × Bool = elim r [
          | some m ↦ (record b { buys = m }, true)
          | none ↦ elim r' [ some m ↦ (record b { sells = m }, true) | none ↦ (b, false) ]
        ] in
          IsUnpruned c.0
    step (some m) r' k k' = record { buys = k; sells = h.sells }
    step none (some m) k k' = record { buys = h.buys; sells = k' }
    step none none k k' = h

cancel_levels-IsSorted :
    (maker : Address) (m : Levels) (removed : List OrderId)
    → IsSorted m
    → IsSorted (cancel_levels maker m removed).0
unfolding cancel_levels
cancel_levels-IsSorted maker [] removed h = tt
cancel_levels-IsSorted maker ((p, l) ∷ m) removed h = (
  cancel_levels-All (λ e. p < e.0) (above-Keeps p) maker m _ h.0,
  cancel_levels-IsSorted maker m _ h.1,
)

cancel_levels-IsOrdered :
    (maker : Address) (m : Levels) (removed : List OrderId)
    → IsOrdered m
    → IsOrdered (cancel_levels maker m removed).0
cancel_levels-IsOrdered maker m removed h = record {
  sorted = cancel_levels-IsSorted maker m removed h.sorted;
  priced = cancel_levels-All IsPriced IsPriced-Keeps maker m removed h.priced;
}

pub cancel_all-IsUnpruned :
    (maker : Address) (b : OrderBook) → IsUnpruned b → IsUnpruned (cancel_all maker b).0
unfolding cancel_all
cancel_all-IsUnpruned maker b h = record {
  buys = cancel_levels-IsOrdered maker b.buys [] h.buys;
  sells = cancel_levels-IsOrdered maker b.sells _ h.sells;
}

retain_full-IsSorted : (m : Levels) → IsSorted m → IsSorted (retain_full m)
unfolding retain_full
retain_full-IsSorted [] h = tt
retain_full-IsSorted ((p, l) ∷ m) h = ground (
  arith,
  retain_full-IsSorted m h.1,
  All-filter (λ (e : ℕ × List RestingOrder). p < e.0) (λ e. not (is_empty e.1)) m h.0,
)

retain_full-IsLevel : (m : Levels) → All IsPriced m → All IsLevel (retain_full m)
unfolding retain_full
retain_full-IsLevel [] h = tt
retain_full-IsLevel ((p, []) ∷ m) h = retain_full-IsLevel m h.1
retain_full-IsLevel ((p, o ∷ l) ∷ m) h = ((refl, h.0.0, h.0.1), retain_full-IsLevel m h.1)

pub flat-retain_full : (m : Levels) → flat (retain_full m) ≡ flat m
unfolding retain_full
flat-retain_full [] = refl
flat-retain_full ((p, []) ∷ m) = flat-retain_full m
flat-retain_full ((p, o ∷ l) ∷ m) = ap (λ q. o ∷ l ++ q) (flat-retain_full m)

pub prune-IsValid : (b : OrderBook) → IsUnpruned b → IsValid (prune b)
unfolding prune
prune-IsValid b h = record {
  buys_sorted = retain_full-IsSorted b.buys h.buys.sorted;
  buys_levels = retain_full-IsLevel b.buys h.buys.priced;
  sells_sorted = retain_full-IsSorted b.sells h.sells.sorted;
  sells_levels = retain_full-IsLevel b.sells h.sells.priced;
}

-- A valid book has no empty level, and `prune` changes nothing.
pub retain_full-id : (m : Levels) → All IsLevel m → retain_full m ≡ m
unfolding retain_full
retain_full-id [] h = refl
retain_full-id ((p, l) ∷ m) h = rw h.0.0 (ap (◌∷◌ (p, l)) (retain_full-id m h.1))

pub prune-id : (b : OrderBook) → IsValid b → prune b ≡ b
unfolding prune
prune-id b v = rw (retain_full-id b.buys v.buys_levels, retain_full-id b.sells v.sells_levels)

IsLevel-IsPriced : (m : Levels) → All IsLevel m → All IsPriced m
IsLevel-IsPriced m h = All-map IsLevel IsPriced (λ e k. (k.1, k.2)) m h

pub IsValid-IsUnpruned : (b : OrderBook) → IsValid b → IsUnpruned b
IsValid-IsUnpruned b v = record {
  buys = record { sorted = v.buys_sorted; priced = IsLevel-IsPriced b.buys v.buys_levels };
  sells = record { sorted = v.sells_sorted; priced = IsLevel-IsPriced b.sells v.sells_levels };
}
