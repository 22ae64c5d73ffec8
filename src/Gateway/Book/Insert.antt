-- ===== src/Gateway/Book/Insert.antt =====
-- Where a resting order is put: behind the orders of the same or a better price.
use omniscient.Prelude.{
  ℕ, ◌<◌, ◌≤◌, ◌≡◌, refl, sym, ap, subst, ◌∙◌, Bool, true, false, List, [], ◌∷◌, ◌++◌, All, All-map,
  All-append, All-reverse, reverse, is_empty, append-nil, append_assoc, arith, leb, ltb, ◌==◌,
  if◌then◌else◌, Bool-cases, inl, inr, add_u64,
}
use mathlib.Core.List.{reverse-cons}
use omniscient.Prelude.BTreeMap.{IsSorted, update_or_default}
use omniscient.Prelude.BTreeMap.Laws.{All-update_or_default, update_or_default-IsSorted}
use omniscient.Shared.Domain.{OrderSide, buy, sell}
use omniscient.Gateway.Book.{RestingOrder, Levels, OrderBook, insert, insert_by_side, push_back}
use omniscient.Gateway.Book.Priority.{IsSound}
use omniscient.Gateway.Book.Side.{IsLevel, flat}
use omniscient.Gateway.Book.Matching.{IsValid, opposite}

push_back-IsLevel :
    (o : RestingOrder) (m : Levels) → IsSound o → All IsLevel m → All IsLevel (push_back o m)
unfolding push_back
push_back-IsLevel o m s h =
    All-update_or_default IsLevel o.price [] (λ l. l ++ o ∷ []) m (refl, (s, tt), (refl, tt))
      (λ l k. (
        full l,
        All-append IsSound l (o ∷ []) k.1 (s, tt),
        All-append (λ x. x.price ≡ o.price) l (o ∷ []) k.2 (refl, tt),
      ))
      h
  where
    full : (l : List RestingOrder) → is_empty (l ++ o ∷ []) ≡ false
    full [] = refl
    full (x ∷ l) = refl

push_back-IsSorted : (o : RestingOrder) (m : Levels) → IsSorted m → IsSorted (push_back o m)
unfolding push_back
push_back-IsSorted o m h = update_or_default-IsSorted o.price [] _ m h

-- Whether `x` is served before a new order `o` on the same side.
abbrev pub goes_before : OrderSide → RestingOrder → RestingOrder → Bool
goes_before buy o x = leb o.price x.price
goes_before sell o x = leb x.price o.price

-- `o` behind all that go before it.
abbrev pub enqueue : OrderSide → RestingOrder → List RestingOrder → List RestingOrder
enqueue side o [] = o ∷ []
enqueue side o (x ∷ l) = if goes_before side o x then x ∷ enqueue side o l else o ∷ x ∷ l

module _ (side : OrderSide) (o : RestingOrder) where
  enqueue_behind :
      (l k : List RestingOrder)
      → All (λ x. goes_before side o x ≡ true) l
      → enqueue side o (l ++ k) ≡ l ++ enqueue side o k
  enqueue_behind [] k h = refl
  enqueue_behind (x ∷ l) k h = rw h.0 (ap (◌∷◌ x) (enqueue_behind l k h.1))

  enqueue_last :
      (l : List RestingOrder)
      → All (λ x. goes_before side o x ≡ true) l
      → enqueue side o l ≡ l ++ o ∷ []
  enqueue_last [] h = refl
  enqueue_last (x ∷ l) h = rw h.0 (ap (◌∷◌ x) (enqueue_last l h.1))

  enqueue_ahead :
      (l k : List RestingOrder)
      → All (λ x. goes_before side o x ≡ false) k
      → enqueue side o (l ++ k) ≡ enqueue side o l ++ k
  enqueue_ahead [] [] h = refl
  enqueue_ahead [] (x ∷ k) h = rw h.0
  enqueue_ahead (x ∷ l) k h = ground (arith, enqueue_ahead l k h)

-- What holds of the keys holds of the prices.
pub flat_prices {κ} :
    (R : ℕ → Type κ) (m : Levels)
    → All IsLevel m
    → All (λ e. R e.0) m
    → All (λ o. R o.price) (flat m)
flat_prices R [] h r = tt
flat_prices R ((p, l) ∷ m) h r =
    All-append (λ o. R o.price) l (flat m)
      (All-map (λ o. o.price ≡ p) (λ o. R o.price) (λ o e. subst R (sym e) r.0) l h.0.2)
      (flat_prices R m h.1 r.1)

-- The prices of a level, against a new order.
level_prices :
    (side : OrderSide) (o : RestingOrder) (p : ℕ) (l : List RestingOrder) (b : Bool)
    → All (λ x. x.price ≡ p) l
    → ((x : RestingOrder) → x.price ≡ p → goes_before side o x ≡ b)
    → All (λ x. goes_before side o x ≡ b) l
level_prices side o p l b h f = All-map (λ x. x.price ≡ p) (λ x. goes_before side o x ≡ b) f l h

pub flat-append : (m m' : Levels) → flat (m ++ m') ≡ flat m ++ flat m'
flat-append [] m' = refl
flat-append ((p, l) ∷ m) m' =
    ap (◌++◌ l) (flat-append m m') ∙ sym (append_assoc l (flat m) (flat m'))

-- The last level in falling order.
pub flat-reverse :
    (p : ℕ) (l : List RestingOrder) (m : Levels)
    → flat (reverse ((p, l) ∷ m)) ≡ flat (reverse m) ++ l
flat-reverse p l m = rw (reverse-cons (p, l) m, flat-append (reverse m) ((p, l) ∷ []), append-nil)

module _ (o : RestingOrder) where
  -- The sells, in rising order.
  push_back-enqueue_sell :
      (m : Levels) → IsSorted m → All IsLevel m → flat (push_back o m) ≡ enqueue sell o (flat m)
  unfolding push_back update_or_default
  push_back-enqueue_sell [] s h = refl
  push_back-enqueue_sell ((k, l) ∷ m) s h = elim (Bool-cases (o.price == k)) [
    | inl same ↦
        rw
          (
            same,
            enqueue_behind sell o l (flat m)
                (level_prices sell o k l true h.0.2 (λ x e. ground arith)),
            append_assoc,
          )
          (ap (◌++◌ l) (
            sym (
              enqueue_ahead sell o [] (flat m) (
                flat_prices (λ q. leb q o.price ≡ false) m h.1
                  (All-map (λ e. k < e.0) (λ e. leb e.0 o.price ≡ false) (λ e q. ground arith) m
                    s.0)))))
    | inr other ↦ elim (Bool-cases (ltb o.price k)) [
      | inl less ↦
          rw (other, less)
            (sym (
              enqueue_ahead sell o [] (l ++ flat m) (
                flat_prices (λ q. leb q o.price ≡ false) ((k, l) ∷ m) h
                  (
                    ground arith,
                    All-map (λ e. k < e.0) (λ e. leb e.0 o.price ≡ false) (λ e q. ground arith) m
                        s.0,
                  ))))
      | inr more ↦
          rw
            (
              other,
              more,
              enqueue_behind sell o l (flat m)
                  (level_prices sell o k l true h.0.2 (λ x e. ground arith)),
            )
            (ap (◌++◌ l) (push_back-enqueue_sell m s.1 h.1))
    ]
  ]

  -- The orders of the levels, where the keys compare so with the new price.
  falling_prices :
      (m : Levels)
      → All IsLevel m
      → All (λ e. leb o.price e.0 ≡ true) m
      → All (λ x. goes_before buy o x ≡ true) (flat (reverse m))
  falling_prices m h k =
      flat_prices (λ q. leb o.price q ≡ true) (reverse m) (All-reverse IsLevel m h)
        (All-reverse (λ e. leb o.price e.0 ≡ true) m k)

  keys_above :
      (k : ℕ) (m : Levels)
      → o.price ≤ k
      → All (λ e. k < e.0) m
      → All (λ e. leb o.price e.0 ≡ true) m
  keys_above k m q h =
      All-map (λ e. k < e.0) (λ e. leb o.price e.0 ≡ true) (λ e r. ground arith) m h

  -- The buys, in falling order: one level, by where the new price stands.
  push_back_cases :
      (k : ℕ) (l : List RestingOrder) (m : Levels)
      → IsSorted ((k, l) ∷ m)
      → All IsLevel ((k, l) ∷ m)
      → flat (reverse (push_back o m)) ≡ enqueue buy o (flat (reverse m))
      → (c d : Bool) → (o.price == k) ≡ c
      → ltb o.price k ≡ d
      → flat (
          reverse (
            if c
            then (k, l ++ o ∷ []) ∷ m
            else if d
            then (o.price, o ∷ []) ∷ (k, l) ∷ m
            else (k, l) ∷ push_back o m))
        ≡ enqueue buy o (flat (reverse ((k, l) ∷ m)))
  push_back_cases k l m s h ih true d same _ =
      flat-reverse k (l ++ o ∷ []) m
      ∙ sym (append_assoc (flat (reverse m)) l (o ∷ []))
      ∙ ap (λ q. q ++ o ∷ []) (sym (flat-reverse k l m))
      ∙ sym (
          enqueue_last buy o (flat (reverse ((k, l) ∷ m)))
            (falling_prices ((k, l) ∷ m) h (ground arith, keys_above k m (ground arith) s.0)))
  push_back_cases k l m s h ih false true other less =
      flat-reverse o.price (o ∷ []) ((k, l) ∷ m)
      ∙ sym (
          enqueue_last buy o (flat (reverse ((k, l) ∷ m)))
            (falling_prices ((k, l) ∷ m) h (ground arith, keys_above k m (ground arith) s.0)))
  push_back_cases k l m s h ih false false other more =
      flat-reverse k l (push_back o m)
      ∙ ap (λ q. q ++ l) ih
      ∙ sym (
          enqueue_ahead buy o (flat (reverse m)) l
            (level_prices buy o k l false h.0.2 (λ x e. ground arith)))
      ∙ ap (enqueue buy o) (sym (flat-reverse k l m))

  push_back-enqueue_buy :
      (m : Levels)
      → IsSorted m
      → All IsLevel m
      → flat (reverse (push_back o m)) ≡ enqueue buy o (flat (reverse m))
  unfolding push_back update_or_default
  push_back-enqueue_buy [] s h = refl
  push_back-enqueue_buy ((k, l) ∷ m) s h =
      push_back_cases k l m s h (push_back-enqueue_buy m s.1 h.1) (o.price == k) (ltb o.price k)
        refl refl

abbrev pub other_side : OrderSide → OrderSide
other_side buy = sell
other_side sell = buy

-- `insert` keeps a valid book valid, for a sound order. It gives the order the next sequence
-- number, puts it behind all orders of its side with the same or a better price and ahead of the
-- others, and leaves the other side alone.
pub insert-enqueue :
    (b : OrderBook) (o : RestingOrder)
    → IsValid b
    → IsSound o
    → let (b', o') = insert b o in
      IsValid b'
      × (o' ≡ record o { seq = b.next_seq })
      × (b'.next_seq ≡ add_u64 b.next_seq 1)
      × (opposite (other_side o.side) b' ≡ enqueue o.side o' (opposite (other_side o.side) b))
      × (opposite o.side b' ≡ opposite o.side b)
unfolding insert insert_by_side
insert-enqueue b o v s = by_side o.side
  where
    seq_sound : IsSound (record o { seq = b.next_seq })
    seq_sound = record { filled_le = s.filled_le; amount_lt = s.amount_lt }

    o' : RestingOrder
    o' = record o { seq = b.next_seq }

    by_side :
        (side : OrderSide)
        → let b' = insert_by_side side (record b { next_seq = add_u64 b.next_seq 1 }) o' in
          IsValid b'
          × (o' ≡ record o { seq = b.next_seq })
          × (b'.next_seq ≡ add_u64 b.next_seq 1)
          × (opposite (other_side side) b' ≡ enqueue side o' (opposite (other_side side) b))
          × (opposite side b' ≡ opposite side b)
    by_side buy = (
      record {
        buys_sorted = push_back-IsSorted o' b.buys v.buys_sorted;
        buys_levels = push_back-IsLevel o' b.buys seq_sound v.buys_levels;
        sells_sorted = v.sells_sorted;
        sells_levels = v.sells_levels;
      },
      refl,
      refl,
      push_back-enqueue_buy o' b.buys v.buys_sorted v.buys_levels,
      refl,
    )
    by_side sell = (
      record {
        buys_sorted = v.buys_sorted;
        buys_levels = v.buys_levels;
        sells_sorted = push_back-IsSorted o' b.sells v.sells_sorted;
        sells_levels = push_back-IsLevel o' b.sells seq_sound v.sells_levels;
      },
      refl,
      refl,
      push_back-enqueue_sell o' b.sells v.sells_sorted v.sells_levels,
      refl,
    )
