-- ===== src/Prelude/BTreeMap/Laws.antt =====
-- What the writes keep.
use Prim.Native.Nat.{ℕ, ◌<◌}
use mathlib.Core.Path.{◌≡◌, refl}
use mathlib.Core.Logic.{inl, inr}
use mathlib.Core.Option.{none}
use mathlib.Core.List.{[], ◌∷◌}
use native.Mathlib.Omega.{arith}
use omniscient.Prelude.Tests.{ltb, ◌==◌, ltb→lt, Bool-cases}
use omniscient.Prelude.Lists.{All, All-map}
use omniscient.Prelude.BTreeMap.{BTreeMap, get, set, remove, update_or_default, IsSorted}

module _ {ℓ} {V : Type ℓ} where
  pub All-remove {κ} :
      (P : ℕ × V → Type κ) (key : ℕ) (m : BTreeMap V) → All P m → All P (remove key m)
  unfolding remove
  All-remove P key [] h = tt
  All-remove P key ((k, v) ∷ m) h = ground (arith, All-remove P key m h.1)

  pub All-set {κ} :
      (P : ℕ × V → Type κ) (key : ℕ) (w : V) (m : BTreeMap V)
      → P (key, w)
      → All P m
      → All P (set key w m)
  unfolding set
  All-set P key w [] p h = tt
  All-set P key w ((k, v) ∷ m) p h = ground (arith, All-set P key w m p h.1)

  pub All-update_or_default {κ} :
      (P : ℕ × V → Type κ) (key : ℕ) (d : V) (f : V → V) (m : BTreeMap V)
      → P (key, f d)
      → ((v : V) → P (key, v) → P (key, f v))
      → All P m
      → All P (update_or_default key d f m)
  unfolding update_or_default
  All-update_or_default P key d f [] p q h = (p, tt)
  All-update_or_default P key d f ((k, v) ∷ m) p q h =
      ground (arith, q v, All-update_or_default P key d f m p q h.1)

  pub remove-IsSorted : (key : ℕ) (m : BTreeMap V) → IsSorted m → IsSorted (remove key m)
  unfolding remove
  remove-IsSorted key [] h = tt
  remove-IsSorted key ((k, v) ∷ m) h =
      ground (arith, remove-IsSorted key m h.1, All-remove (λ e. k < e.0) key m h.0)

  -- The bound needs only the keys, which a write through a reference leaves alone.
  All-set_keys :
      (b key : ℕ) (w : V) (m : BTreeMap V) → All (λ e. b < e.0) m → All (λ e. b < e.0) (set key w m)
  unfolding set
  All-set_keys b key w [] h = tt
  All-set_keys b key w ((k, v) ∷ m) h = ground (arith, All-set_keys b key w m h.1)

  pub set-IsSorted : (key : ℕ) (w : V) (m : BTreeMap V) → IsSorted m → IsSorted (set key w m)
  unfolding set
  set-IsSorted key w [] h = tt
  set-IsSorted key w ((k, v) ∷ m) h =
      ground (arith, set-IsSorted key w m h.1, All-set_keys k key w m h.0)

  pub update_or_default-IsSorted :
      (key : ℕ) (d : V) (f : V → V) (m : BTreeMap V)
      → IsSorted m
      → IsSorted (update_or_default key d f m)
  unfolding update_or_default
  update_or_default-IsSorted key d f [] h = (tt, tt)
  update_or_default-IsSorted key d f ((k, v) ∷ m) h = elim (Bool-cases (key == k)) [
    | inl same ↦ rw same h
    | inr other ↦ elim (Bool-cases (ltb key k)) [
      | inl less ↦
          rw (other, less)
            (
              (
                ltb→lt key k less,
                All-map (λ e. k < e.0) (λ e. key < e.0)
                    (λ e q. let l : key < k = ltb→lt key k less in omega arith) m h.0,
              ),
              h,
            )
      | inr more ↦
          rw (other, more)
            (
              All-update_or_default (λ e. k < e.0) key d f m (ground arith) (λ v q. q) h.0,
              update_or_default-IsSorted key d f m h.1,
            )
    ]
  ]

  -- A bound on the keys shows that a smaller key is absent.
  pub get_below : (key : ℕ) (m : BTreeMap V) → All (λ e. key < e.0) m → get key m ≡ none
  unfolding get
  get_below key [] h = refl
  get_below key ((k, v) ∷ m) h = ground (arith, get_below key m h.1)
