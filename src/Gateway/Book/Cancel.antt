-- ===== src/Gateway/Book/Cancel.antt =====
-- gateway/src/domain.rs: `cancel`, `cancel_all`, `prune`, `best_bid`, `best_ask`.
pub mod Laws
pub mod Validity
pub mod Shrink
use omniscient.Prelude.{
  ℕ, zero, suc, ◌+◌, Bool, true, false, not, Option, none, some, List, [], ◌∷◌, ◌++◌, length,
  is_empty, filter, get_elem?, remove_at, ◌==◌, if◌then◌else◌,
}
use omniscient.Prelude.BTreeMap.{first_key, last_key}
use omniscient.Shared.Domain.{Address, OrderId, address_eq}
use omniscient.Gateway.Book.{RestingOrder, Levels, OrderBook}

-- `level.iter().position(|o| o.order_id == order_id)`
pub position : OrderId → List RestingOrder → Option ℕ
position id [] = none
position id (o ∷ l) =
    if o.order_id == id
    then some 0
    else (elim (position id l) [ none ↦ none | some i ↦ some (i + 1) ])

-- One of the two `for` loops of `cancel`; `none` if it runs to its end.
pub cancel_in : OrderId → Levels → Option Levels
cancel_in id [] = none
cancel_in id ((p, l) ∷ m) = elim (position id l) [
  | some pos ↦ some ((p, remove_at pos l) ∷ m)
  | none ↦ elim (cancel_in id m) [ none ↦ none | some m' ↦ some ((p, l) ∷ m') ]
]

pub cancel : OrderId → OrderBook → OrderBook × Bool
cancel id b = elim (cancel_in id b.buys) [
  | some m ↦ (record b { buys = m }, true)
  | none ↦ elim (cancel_in id b.sells) [
    | some m ↦ (record b { sells = m }, true)
    | none ↦ (b, false)
  ]
]

-- The `while i < level.len()` of `cancel_all`: the level and the ids removed so far.
pub cancel_level :
    ℕ → Address → ℕ → List RestingOrder → List OrderId → List RestingOrder × List OrderId
cancel_level zero maker i level removed = (level, removed)
cancel_level (suc fuel) maker i level removed = elim (get_elem? level i) [
  | none ↦ (level, removed)
  | some o ↦ elim (address_eq o.maker maker) [
    | true ↦ cancel_level fuel maker i (remove_at i level) (removed ++ o.order_id ∷ [])
    | false ↦ cancel_level fuel maker (i + 1) level removed
  ]
]

-- One of the two `for` loops of `cancel_all`.
pub cancel_levels : Address → Levels → List OrderId → Levels × List OrderId
cancel_levels maker [] removed = ([], removed)
cancel_levels maker ((p, l) ∷ m) removed =
    let (l', removed') = cancel_level (suc (length l)) maker 0 l removed in
    let (m', removed'') = cancel_levels maker m removed' in ((p, l') ∷ m', removed'')

pub cancel_all : Address → OrderBook → OrderBook × List OrderId
cancel_all maker b =
    let (buys, removed) = cancel_levels maker b.buys [] in
    let (sells, removed') = cancel_levels maker b.sells removed in
    (record b { buys = buys; sells = sells }, removed')

-- `retain(|_, v| !v.is_empty())`
unfoldable pub retain_full : Levels → Levels
retain_full = filter (λ e. not (is_empty e.1))

unfoldable pub prune : OrderBook → OrderBook
prune b = record b { buys = retain_full b.buys; sells = retain_full b.sells }

unfoldable pub best_bid : OrderBook → Option ℕ
best_bid b = last_key b.buys

unfoldable pub best_ask : OrderBook → Option ℕ
best_ask b = first_key b.sells
