-- ===== src/Prelude/BTreeMap.antt =====
-- `std::collections::BTreeMap<u64, V>` as its entries in the order of the keys.
pub mod Ends
pub mod Laws
use Prim.Native.Nat.{ℕ, ◌<◌}
use mathlib.Core.Option.{Option, none, some}
use mathlib.Core.List.{List, [], ◌∷◌}
use omniscient.Prelude.Tests.{ltb, ◌==◌, if◌then◌else◌}
use omniscient.Prelude.Lists.{All}

abbrev pub BTreeMap {ℓ} : Type ℓ → Type ℓ
BTreeMap V = List (ℕ × V)

module _ {ℓ} {V : Type ℓ} where
  -- `keys().next()`
  unfoldable pub first_key : BTreeMap V → Option ℕ
  first_key [] = none
  first_key ((k, v) ∷ m) = some k

  -- `keys().next_back()`
  unfoldable pub last_key : BTreeMap V → Option ℕ
  last_key [] = none
  last_key ((k, v) ∷ []) = some k
  last_key ((k, v) ∷ (e ∷ m)) = last_key (e ∷ m)

  -- `get_mut(&key)`, read
  unfoldable pub get : ℕ → BTreeMap V → Option V
  get key [] = none
  get key ((k, v) ∷ m) = if key == k then some v else get key m

  -- `get_mut(&key)`, written through
  unfoldable pub set : ℕ → V → BTreeMap V → BTreeMap V
  set key w [] = []
  set key w ((k, v) ∷ m) = if key == k then (k, w) ∷ m else (k, v) ∷ set key w m

  unfoldable pub remove : ℕ → BTreeMap V → BTreeMap V
  remove key [] = []
  remove key ((k, v) ∷ m) = if key == k then m else (k, v) ∷ remove key m

  -- `entry(key).or_default()`, then `f` through the reference
  unfoldable pub update_or_default : ℕ → V → (V → V) → BTreeMap V → BTreeMap V
  update_or_default key d f [] = (key, f d) ∷ []
  update_or_default key d f ((k, v) ∷ m) =
      if key == k
      then (k, f v) ∷ m
      else if ltb key k
      then (key, f d) ∷ (k, v) ∷ m
      else (k, v) ∷ update_or_default key d f m

  -- The keys rise strictly.
  abbrev pub IsSorted : BTreeMap V → Type 0
  IsSorted [] = Unit
  IsSorted ((k, v) ∷ m) = All (λ e. k < e.0) m × IsSorted m
