-- ===== src/Gateway/Book/Cancel/Laws.antt =====
-- What a cancellation removes, seen on the list of all resting orders.
use omniscient.Prelude.{
  ℕ, zero, suc, ◌+◌, ◌<◌, ◌≡◌, refl, sym, ap, subst, ◌∙◌, inl, inr, Bool, true, false, not, Option,
  none, some, List, [], ◌∷◌, ◌++◌, map, length, length-append, filter, any, any-append, append-nil,
  append_assoc, get_elem?-append, get_elem?-length, remove_at-append, filter-append, remove_at,
  Bool-cases, if◌then◌else◌, ◌==◌, arith,
}
use native.Mathlib.Numerals.{add-one}
use mathlib.Core.List.{map-append}
use omniscient.Shared.Domain.{Address, OrderId, address_eq}
use omniscient.Gateway.Book.{RestingOrder, Levels, OrderBook}
use omniscient.Gateway.Book.Side.{flat}
use omniscient.Gateway.Book.Cancel.{
  position, cancel_in, cancel, cancel_level, cancel_levels, cancel_all,
}

-- All orders of a book, in the order in which `cancel` looks at them.
abbrev pub resting : OrderBook → List RestingOrder
resting b = flat b.buys ++ flat b.sells

abbrev pub has_id : OrderId → RestingOrder → Bool
has_id id o = o.order_id == id

-- The list without the first order of this id.
abbrev pub erase_id : OrderId → List RestingOrder → List RestingOrder
erase_id id [] = []
erase_id id (o ∷ l) = if has_id id o then l else o ∷ erase_id id l

erase_id-append :
    (id : OrderId) (l k : List RestingOrder)
    → erase_id id (l ++ k) ≡ (if any (has_id id) l then erase_id id l ++ k else l ++ erase_id id k)
erase_id-append id [] k = refl
erase_id-append id (o ∷ l) k = ground (arith, erase_id-append id l k)

erase_id-absent :
    (id : OrderId) (l : List RestingOrder) → any (has_id id) l ≡ false → erase_id id l ≡ l
erase_id-absent id [] h = refl
erase_id-absent id (o ∷ l) h = ground (arith, erase_id-absent id l)

-- What `position` finds, and what removing there leaves.
abbrev Found : OrderId → List RestingOrder → Option ℕ → Type 0
Found id l none = any (has_id id) l ≡ false
Found id l (some i) = (any (has_id id) l ≡ true) × (remove_at i l ≡ erase_id id l)

Found-cons :
    (id : OrderId) (o : RestingOrder) (l : List RestingOrder) (r : Option ℕ)
    → Found id l r
    → Found id
        (o ∷ l)
        (if o.order_id == id then some 0 else (elim r [ none ↦ none | some i ↦ some (i + 1) ]))
Found-cons id o l none h = ground arith
Found-cons id o l (some i) h = rw add-one (ground arith)

position-Found : (id : OrderId) (l : List RestingOrder) → Found id l (position id l)
unfolding position
position-Found id [] = refl
position-Found id (o ∷ l) = Found-cons id o l (position id l) (position-Found id l)

-- One side: nothing is found, or the first order of this id goes.
abbrev Cancels : OrderId → Levels → Option Levels → Type 0
Cancels id m none = any (has_id id) (flat m) ≡ false
Cancels id m (some m') = (any (has_id id) (flat m) ≡ true) × (flat m' ≡ erase_id id (flat m))

Cancels-cons :
    (id : OrderId) (p : ℕ) (l : List RestingOrder) (m : Levels) (r : Option ℕ) (r' : Option Levels)
    → Found id l r
    → Cancels id m r'
    → Cancels id ((p, l) ∷ m) (elim r [
      | some pos ↦ some ((p, remove_at pos l) ∷ m)
      | none ↦ elim r' [ none ↦ none | some m' ↦ some ((p, l) ∷ m') ]
    ])
Cancels-cons id p l m (some pos) r' f c =
    (rw (any-append (has_id id) l (flat m), f.0), rw (erase_id-append id l (flat m), f.0, f.1))
Cancels-cons id p l m none (some m') f c =
    (rw (any-append (has_id id) l (flat m), f) c.0, rw (erase_id-append id l (flat m), f, c.1))
Cancels-cons id p l m none none f c = rw (any-append (has_id id) l (flat m), f) c

cancel_in-Cancels : (id : OrderId) (m : Levels) → Cancels id m (cancel_in id m)
unfolding cancel_in
cancel_in-Cancels id [] = refl
cancel_in-Cancels id ((p, l) ∷ m) =
    Cancels-cons id p l m (position id l) (cancel_in id m) (position-Found id l)
      (cancel_in-Cancels id m)

-- `cancel` reports whether an order of this id rests in the book, and removes the first one and
-- nothing else.
pub cancel-resting :
    (id : OrderId) (b : OrderBook)
    → ((cancel id b).1 ≡ any (has_id id) (resting b))
      × (resting (cancel id b).0 ≡ erase_id id (resting b))
unfolding cancel
cancel-resting id b =
    both (cancel_in id b.buys) (cancel_in id b.sells) (cancel_in-Cancels id b.buys)
      (cancel_in-Cancels id b.sells)
  where
    both :
        (r r' : Option Levels)
        → Cancels id b.buys r
        → Cancels id b.sells r'
        → let c : OrderBook × Bool = elim r [
          | some m ↦ (record b { buys = m }, true)
          | none ↦ elim r' [ some m ↦ (record b { sells = m }, true) | none ↦ (b, false) ]
        ] in
          (c.1 ≡ any (has_id id) (resting b)) × (resting c.0 ≡ erase_id id (resting b))
    both (some m) r' f c = (
      rw (any-append (has_id id) (flat b.buys) (flat b.sells), f.0),
      rw (erase_id-append id (flat b.buys) (flat b.sells), f.0, f.1),
    )
    both none (some m) f c = (
      rw (any-append (has_id id) (flat b.buys) (flat b.sells), f, c.0),
      rw (erase_id-append id (flat b.buys) (flat b.sells), f, c.1),
    )
    both none none f c = (
      rw (any-append (has_id id) (flat b.buys) (flat b.sells), f, c),
      rw (erase_id-append id (flat b.buys) (flat b.sells), f)
          (sym (ap (◌++◌ (flat b.buys)) (erase_id-absent id (flat b.sells) c))),
    )

abbrev pub is_of : Address → RestingOrder → Bool
is_of maker o = address_eq o.maker maker

-- The orders of all other makers.
abbrev pub others : Address → List RestingOrder → List RestingOrder
others maker = filter (λ o. not (is_of maker o))

abbrev pub ids_of : Address → List RestingOrder → List OrderId
ids_of maker l = map (λ o. o.order_id) (filter (is_of maker) l)

-- The index loop keeps the others in order and lists the ids that it removes.
cancel_level-eq :
    (fuel : ℕ) (maker : Address) (kept l : List RestingOrder) (removed : List OrderId)
    → length l < fuel
    → cancel_level fuel maker (length kept) (kept ++ l) removed
      ≡ (kept ++ others maker l, removed ++ ids_of maker l)
unfolding cancel_level
cancel_level-eq zero maker kept l removed h = elim h [ ]
cancel_level-eq (suc fuel) maker kept [] removed h =
    rw (append-nil, get_elem?-length kept, cancel_level) (rw (append-nil, append-nil))
cancel_level-eq (suc fuel) maker kept (o ∷ l) removed h = elim (Bool-cases (is_of maker o)) [
  | inl own ↦
      rw (cancel_level, get_elem?-append kept o l, own, remove_at-append kept o l)
        (cancel_level-eq fuel maker kept l (removed ++ o.order_id ∷ []) (omega arith)
          ∙ ap (λ ids. (kept ++ others maker l, ids))
              (append_assoc removed (o.order_id ∷ []) (ids_of maker l)))
  | inr other ↦
      rw (cancel_level, get_elem?-append kept o l, other)
        (subst
          (λ (r : ℕ × List RestingOrder × List RestingOrder).
            cancel_level fuel maker r.0 r.1 removed ≡ (r.2, removed ++ ids_of maker l))
          (λ i. (
            at_next i,
            append_assoc kept (o ∷ []) l i,
            append_assoc kept (o ∷ []) (others maker l) i,
          ))
          (cancel_level-eq fuel maker (kept ++ o ∷ []) l removed (omega arith)))
]
  where
    at_next : length (kept ++ o ∷ []) ≡ length kept + 1
    at_next = length-append kept (o ∷ [])

cancel_levels-eq :
    (maker : Address) (m : Levels) (removed : List OrderId)
    → (flat (cancel_levels maker m removed).0 ≡ others maker (flat m))
      × ((cancel_levels maker m removed).1 ≡ removed ++ ids_of maker (flat m))
unfolding cancel_levels
cancel_levels-eq maker [] removed = (refl, sym (append-nil removed))
cancel_levels-eq maker ((p, l) ∷ m) removed =
    let ih = cancel_levels-eq maker m (removed ++ ids_of maker l) in
    rw (cancel_level-eq (suc (length l)) maker [] l removed (omega arith)) (
      rw (ih.0, filter-append (λ o. not (is_of maker o)) l (flat m)),
      rw (ih.1, append_assoc, filter-append (is_of maker) l (flat m), map-append),
    )

-- `cancel_all` removes the orders of this maker, all of them and no others, and returns their
-- ids; the orders that stay keep their order.
pub cancel_all-resting :
    (maker : Address) (b : OrderBook)
    → (resting (cancel_all maker b).0 ≡ others maker (resting b))
      × ((cancel_all maker b).1 ≡ ids_of maker (resting b))
unfolding cancel_all
cancel_all-resting maker b =
    let buys = cancel_levels-eq maker b.buys [] in
    let sells = cancel_levels-eq maker b.sells (cancel_levels maker b.buys []).1 in
    (
      rw (buys.0, sells.0, filter-append (λ o. not (is_of maker o)) (flat b.buys) (flat b.sells)),
      rw (sells.1, buys.1, filter-append (is_of maker) (flat b.buys) (flat b.sells), map-append),
    )
