-- ===== src/Shared/Domain.antt =====
-- shared/src/domain.rs
use omniscient.Prelude.{ℕ, ◌≡◌, refl, Bool, true, false, List, [], ◌∷◌, ◌&&◌, ◌==◌, ◌↔◌, arith}

-- `[u8]` compared by `==`
unfoldable pub bytes_eq : List ℕ → List ℕ → Bool
bytes_eq [] [] = true
bytes_eq [] (y ∷ ys) = false
bytes_eq (x ∷ xs) [] = false
bytes_eq (x ∷ xs) (y ∷ ys) = x == y && bytes_eq xs ys

pub bytes_eq_iff : (xs ys : List ℕ) → (bytes_eq xs ys ≡ true) ↔ (xs ≡ ys)
unfolding bytes_eq
bytes_eq_iff [] [] = (λ _. refl, λ _. refl)
bytes_eq_iff [] (y ∷ ys) = ground arith
bytes_eq_iff (x ∷ xs) [] = ground arith
bytes_eq_iff (x ∷ xs) (y ∷ ys) = ground (arith, bytes_eq_iff xs ys)

-- The derived types around a byte array.
pub record Address : Type 0 where
  pub bytes : List ℕ

pub record MarketId : Type 0 where
  pub bytes : List ℕ

-- The 128 bits of the UUID.
abbrev pub OrderId : Type 0
OrderId = ℕ

pub data OrderSide : Type 0 where
  buy sell : OrderSide

-- `PartialEq` of `Address`
unfoldable pub address_eq : Address → Address → Bool
address_eq a b = bytes_eq a.bytes b.bytes

pub address_eq_iff : (a b : Address) → (address_eq a b ≡ true) ↔ (a ≡ b)
unfolding address_eq
address_eq_iff a b = ground (arith, bytes_eq_iff a.bytes b.bytes)
