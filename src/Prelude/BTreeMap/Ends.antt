-- ===== src/Prelude/BTreeMap/Ends.antt =====
-- The first and the last entry, as the head of the entries in rising or falling order.
use Prim.Native.Nat.{ℕ, ◌<◌}
use mathlib.Core.Path.{◌≡◌, refl, ap, sym, subst, ◌∙◌}
use mathlib.Core.Bool.{false}
use mathlib.Core.Option.{Option, none, some}
use mathlib.Core.List.{[], ◌∷◌, ◌++◌, reverse, reverse-cons}
use native.Mathlib.Omega.{arith}
use omniscient.Prelude.Tests.{◌==◌}
use omniscient.Prelude.Lists.{All, length, length-append}
use omniscient.Prelude.BTreeMap.{BTreeMap, first_key, last_key, get, set, remove, IsSorted}

module _ {ℓ} {V : Type ℓ} where
  -- What a key at the end of the map says of the entries in the order `ranked`.
  abbrev pub Front : (BTreeMap V → BTreeMap V) → BTreeMap V → Option ℕ → Type ℓ
  Front ranked m none = ranked m ≡ []
  Front ranked m (some k) =
      (v : V) × (rest : BTreeMap V) × (get k m ≡ some v)
      × (ranked m ≡ (k, v) ∷ rest)
      × (ranked (remove k m) ≡ rest)
      × ((w : V) → ranked (set k w m) ≡ (k, w) ∷ rest)

  abbrev pub rising : BTreeMap V → BTreeMap V
  rising m = m

  pub first_key-Front : (m : BTreeMap V) → IsSorted m → Front rising m (first_key m)
  unfolding first_key get set remove
  first_key-Front [] h = refl
  first_key-Front ((k, v) ∷ m) h = (v, m, ground arith, refl, ground arith, λ w. ground arith)

  key_above : (k j : ℕ) (v : V) (m : BTreeMap V) → All (λ e. k < e.0) m → get j m ≡ some v → k < j
  unfolding get
  key_above k j v [] h e = cc
  key_above k j v ((i, w) ∷ m) h e = ground (arith, key_above k j v m h.1)

  -- An entry below all others does not change what is at the upper end.
  Front-cons :
      (k : ℕ) (v : V) (m : BTreeMap V) (j : ℕ)
      → All (λ e. k < e.0) m
      → Front reverse m (some j)
      → Front reverse ((k, v) ∷ m) (some j)
  unfolding get set remove
  Front-cons k v m j h (w, rest, found, ends, removed, written) =
      let above : k < j = key_above k j w m h found in
      let other : (j == k) ≡ false = ground arith in
      (
        w,
        rest ++ (k, v) ∷ [],
        rw other found,
        rw (reverse-cons (k, v) m, ends),
        rw other (rw (reverse-cons (k, v) (remove j m), removed)),
        λ w'. rw other (rw (reverse-cons (k, v) (set j w' m), written w')),
      )

  pub last_key-Front : (m : BTreeMap V) → IsSorted m → Front reverse m (last_key m)
  unfolding last_key get set remove
  last_key-Front [] h = refl
  last_key-Front ((k, v) ∷ []) h = (v, [], ground arith, refl, ground arith, λ w. ground arith)
  last_key-Front ((k, v) ∷ (e ∷ m)) h = step (last_key (e ∷ m)) (last_key-Front (e ∷ m) h.1)
    where
      step : (o : Option ℕ) → Front reverse (e ∷ m) o → Front reverse ((k, v) ∷ (e ∷ m)) o
      step none f =
          absurd (
            omega (arith, ap length (sym f ∙ reverse-cons e m), length-append (reverse m) (e ∷ [])))
      step (some j) f = Front-cons k v (e ∷ m) j h.0 f

  -- What holds of all keys holds of the one at an end.
  pub All-first_key {κ} :
      (R : ℕ → Type κ) (m : BTreeMap V) (p : ℕ) → All (λ e. R e.0) m → first_key m ≡ some p → R p
  unfolding first_key
  All-first_key R [] p h e = cc
  All-first_key R ((k, v) ∷ m) p h e = let e' : k ≡ p = cc in subst R e' h.0

  pub All-last_key {κ} :
      (R : ℕ → Type κ) (m : BTreeMap V) (p : ℕ) → All (λ e. R e.0) m → last_key m ≡ some p → R p
  unfolding last_key
  All-last_key R [] p h e = cc
  All-last_key R ((k, v) ∷ []) p h e = let e' : k ≡ p = cc in subst R e' h.0
  All-last_key R ((k, v) ∷ (x ∷ m)) p h e = All-last_key R (x ∷ m) p h.1 e
