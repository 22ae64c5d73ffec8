-- ===== src/Gateway/Book/Termination.antt =====
-- The loops of `match_buy` and `match_sell` end by their tests, and not for want of fuel.
use omniscient.Prelude.{
  ℕ, zero, suc, ◌<◌, ◌≡◌, ◌⊎◌, inl, inr, refl, sym, ap, ◌∙◌, subst, Bool, true, false, Option, none,
  some, List, [], ◌∷◌, All, length, arith, ◌==◌, if◌then◌else◌, u64_mod,
}
use omniscient.Prelude.BTreeMap.{first_key, last_key, get, remove}
use omniscient.Prelude.BTreeMap.Laws.{All-remove}
use omniscient.Gateway.Book.{
  RestingOrder, Fill, Taker, Levels, LevelState, SideState, remaining, match_front, level_continues,
  match_level, next_price, level_at, sweep, match_levels, match_side,
}

-- The fields of an order that the loops compute with are u64.
abbrev pub IsU64 : RestingOrder → Type 0
IsU64 o = (o.amount < u64_mod) × (o.filled < u64_mod)

-- A round of the inner loop shortens the level, or nothing is left to fill.
match_front_shortens :
    (t : Taker) (s : LevelState) (o : RestingOrder) (l : List RestingOrder)
    → IsU64 o
    → let s' = match_front t s (o ∷ l) in (s'.left ≡ 0) ⊎ (s'.level ≡ l)
unfolding match_front remaining
match_front_shortens t s o l u = ground arith

match_level-zero : (fuel : ℕ) (t : Taker) (s : LevelState) → s.left ≡ 0 → match_level fuel t s ≡ s
unfolding match_level
match_level-zero zero t s h = refl
match_level-zero (suc fuel) t s h = ground arith

pub match_level_ends :
    (fuel : ℕ) (t : Taker) (left : ℕ) (l : List RestingOrder) (fs : List Fill)
    → length l < fuel
    → All IsU64 l
    → level_continues (match_level fuel t (record { left = left; level = l; fills = fs })) ≡ false
unfolding match_level
match_level_ends zero t left l fs h u = absurd (omega arith)
match_level_ends (suc fuel) t left [] fs h u = ground arith
match_level_ends (suc fuel) t zero (o ∷ l) fs h u = ground arith
match_level_ends (suc fuel) t (suc n) (o ∷ l) fs h u =
    ap level_continues step
    ∙ by_round (match_front t s (o ∷ l)) (match_front_shortens t s o l u.0)
        (λ left fs. match_level_ends fuel t left l fs (omega arith) u.1)
  where
    s : LevelState
    s = record { left = suc n; level = o ∷ l; fills = fs }

    step : match_level (suc fuel) t s ≡ match_level fuel t (match_front t s (o ∷ l))
    step = ground arith

    by_round :
        (s' : LevelState)
        → (s'.left ≡ 0) ⊎ (s'.level ≡ l)
        → ((left : ℕ) (fs : List Fill)
            → level_continues (match_level fuel t (record { left = left; level = l; fills = fs }))
              ≡ false)
        → level_continues (match_level fuel t s') ≡ false
    by_round s' (inl e) rest = rw (match_level-zero fuel t s' e) (ground arith)
    by_round s' (inr e) rest =
        subst
          (λ (l : List RestingOrder).
            level_continues
              (match_level fuel t (record { left = s'.left; level = l; fills = s'.fills }))
            ≡ false)
          (sym e) (rest s'.left s'.fills)

length-remove_first : (m : Levels) (p : ℕ) → first_key m ≡ some p → length (remove p m) < length m
unfolding first_key remove
length-remove_first [] p h = cc
length-remove_first ((k, l) ∷ m) p h = ground arith

length-remove_last : (m : Levels) (p : ℕ) → last_key m ≡ some p → length (remove p m) < length m
unfolding last_key remove
length-remove_last [] p h = cc
length-remove_last ((k, l) ∷ []) p h = ground arith
length-remove_last ((k, l) ∷ (e ∷ m)) p h = ground (arith, length-remove_last (e ∷ m) p)

abbrev pub IsU64Level : ℕ × List RestingOrder → Type 0
IsU64Level (p, l) = All IsU64 l

level_at-IsU64 : (p : ℕ) (m : Levels) → All IsU64Level m → All IsU64 (level_at p m)
unfolding level_at get
level_at-IsU64 p [] u = tt
level_at-IsU64 p ((k, l) ∷ m) u = by_test (p == k) (level_at-IsU64 p m u.1)
  where
    by_test :
        (c : Bool)
        → All IsU64 (level_at p m)
        → All IsU64 (elim (if c then some l else get p m) as (λ _. List RestingOrder) [
          | none ↦ []
          | some l ↦ l
        ])
    by_test true h = u.0
    by_test false h = h

-- A round of the outer loop leaves nothing to fill, or removes the level.
sweep_shortens :
    (t : Taker) (p : ℕ) (s : SideState)
    → All IsU64Level s.levels
    → ((sweep t p s).left ≡ 0) ⊎ ((sweep t p s).levels ≡ remove p s.levels)
unfolding sweep
sweep_shortens t p s u =
    let l = level_at p s.levels in
    let e =
      match_level_ends (suc (length l)) t s.left l s.fills (omega arith)
        (level_at-IsU64 p s.levels u) in
    ground arith

match_levels-zero :
    (fuel : ℕ) (best : Levels → Option ℕ) (crosses : ℕ → Bool) (t : Taker) (s : SideState)
    → s.left ≡ 0
    → next_price best crosses (match_levels fuel best crosses t s) ≡ none
unfolding match_levels next_price
match_levels-zero zero best crosses t s h = ground arith
match_levels-zero (suc fuel) best crosses t s h = ground arith

-- The best price of a side that is not empty is one of its levels.
abbrev IsBest : (Levels → Option ℕ) → Type 0
IsBest best = (m : Levels) (p : ℕ) → best m ≡ some p → length (remove p m) < length m

next_price-best :
    (best : Levels → Option ℕ) (crosses : ℕ → Bool) (s : SideState) (p : ℕ)
    → next_price best crosses s ≡ some p
    → best s.levels ≡ some p
unfolding next_price
next_price-best best crosses s p h = ground arith

match_levels_ends :
    (fuel : ℕ) (best : Levels → Option ℕ) (crosses : ℕ → Bool) (t : Taker) (s : SideState)
    → IsBest best
    → length s.levels < fuel
    → All IsU64Level s.levels
    → next_price best crosses (match_levels fuel best crosses t s) ≡ none
unfolding match_levels
match_levels_ends zero best crosses t s b h u = absurd (omega arith)
match_levels_ends (suc fuel) best crosses t s b h u =
    by_price (next_price best crosses s) refl
      (λ p e. match_levels_ends fuel best crosses t (sweep t p s) b)
  where
    by_price :
        (o : Option ℕ)
        → next_price best crosses s ≡ o
        → ((p : ℕ)
            → next_price best crosses s ≡ some p
            → length (sweep t p s).levels < fuel
            → All IsU64Level (sweep t p s).levels
            → next_price best crosses (match_levels fuel best crosses t (sweep t p s)) ≡ none)
        → next_price best crosses (elim o as (λ _. SideState) [
          | some p ↦ match_levels fuel best crosses t (sweep t p s)
          | none ↦ s
        ])
          ≡ none
    by_price none e rest = e
    by_price (some p) e rest = elim (sweep_shortens t p s u) [
      | inl z ↦ match_levels-zero fuel best crosses t (sweep t p s) z
      | inr r ↦
          rest p e (let k = b s.levels p (next_price-best best crosses s p e) in rw r (omega arith))
            (subst (All IsU64Level) (sym r) (All-remove IsU64Level p s.levels u))
    ]

-- On a side whose orders have u64 amounts, valid or not: the loops over the levels, from the lowest
-- price and from the highest, stop because nothing is left to fill, or no level, or none that the
-- limit crosses; and the loop over a level stops because nothing is left to fill or no order.
pub match_side_ends :
    (crosses : ℕ → Bool) (t : Taker) (amount : ℕ) (m : Levels)
    → All IsU64Level m
    → (next_price first_key crosses (match_side first_key crosses t amount m) ≡ none)
      × (next_price last_key crosses (match_side last_key crosses t amount m) ≡ none)
      × ((p left : ℕ) (fs : List Fill)
          → let l = level_at p m in
            level_continues
              (match_level (suc (length l)) t (record { left = left; level = l; fills = fs }))
            ≡ false)
unfolding match_side
match_side_ends crosses t amount m u = (
  match_levels_ends (suc (length m)) first_key crosses t
      (record { left = amount; levels = m; fills = [] }) length-remove_first (omega arith) u,
  match_levels_ends (suc (length m)) last_key crosses t
      (record { left = amount; levels = m; fills = [] }) length-remove_last (omega arith) u,
  λ p left fs.
      match_level_ends (suc (length (level_at p m))) t left (level_at p m) fs (omega arith)
        (level_at-IsU64 p m u),
)
