-- ===== src/Shared/Signing/Laws.antt =====
-- The encoding of an order loses nothing.
use omniscient.Prelude.{
  ℕ, ◌<◌, ◌≡◌, ◌≢◌, refl, arith, List, [], ◌∷◌, ◌++◌, length, u64_mod, u256_mod,
}
use omniscient.Shared.Domain.{OrderSide}
use omniscient.Shared.Order.{Order}
use omniscient.Shared.Signing.{Crypto, extend, side_byte, order_slices, encode_order}

pub append-inj :
    (xs ys us vs : List ℕ) → length xs ≡ length ys → xs ++ us ≡ ys ++ vs → (xs ≡ ys) × (us ≡ vs)
append-inj [] [] us vs h e = (refl, e)
append-inj [] (y ∷ ys) us vs h e = absurd (omega arith)
append-inj (x ∷ xs) [] us vs h e = absurd (omega arith)
append-inj (x ∷ xs) (y ∷ ys) us vs h e = ground (arith, append-inj xs ys us vs)

-- Slices of the same lengths.
abbrev Aligned : List (List ℕ) → List (List ℕ) → Type 0
Aligned [] [] = Unit
Aligned [] (y ∷ ys) = ⊥
Aligned (x ∷ xs) [] = ⊥
Aligned (x ∷ xs) (y ∷ ys) = (length x ≡ length y) × Aligned xs ys

extend-inj : (xs ys : List (List ℕ)) → Aligned xs ys → extend xs ≡ extend ys → xs ≡ ys
unfolding extend
extend-inj [] [] a e = refl
extend-inj [] (y ∷ ys) a e = absurd a
extend-inj (x ∷ xs) [] a e = absurd a
extend-inj (x ∷ xs) (y ∷ ys) a e =
    let parts = append-inj x y (extend xs) (extend ys) a.0 e in
    let rest = extend-inj xs ys a.1 parts.1 in cc

-- The ranges of an order's fields: 32 and 20 bytes, a u256, and u64 numbers.
pub record IsTyped (o : Order) : Type 0 where
  pub salt_length : length o.salt.bytes ≡ 32
  pub maker_length : length o.maker.bytes ≡ 20
  pub position_id_lt : o.position_id < u256_mod
  pub price_lt : o.price < u64_mod
  pub amount_lt : o.amount < u64_mod
  pub nonce_lt : o.nonce < u64_mod
  pub deadline_lt : o.deadline < u64_mod

side_byte-inj : (s t : OrderSide) → side_byte s ≡ side_byte t → s ≡ t
side_byte-inj s t h = ground arith

encode_order-same :
    (crypto : Crypto)
    → ((n : ℕ) → length (crypto.to_be_bytes n) ≡ 32)
    → ((m n : ℕ)
        → m < u256_mod
        → n < u256_mod
        → crypto.to_be_bytes m ≡ crypto.to_be_bytes n
        → m ≡ n)
    → (o p : Order) → IsTyped o
    → IsTyped p
    → encode_order crypto o ≡ encode_order crypto p
    → o ≡ p
unfolding encode_order order_slices
encode_order-same crypto w inj o p t u e =
    let same =
      extend-inj (order_slices crypto o) (order_slices crypto p)
        (
          refl,
          (
            omega arith,
            (
              refl,
              (
                omega arith,
                (
                  rw (w o.position_id, w p.position_id) refl,
                  (
                    rw (w o.price, w p.price) refl,
                    (
                      rw (w o.amount, w p.amount) refl,
                      (
                        rw (w (side_byte o.side), w (side_byte p.side)) refl,
                        (
                          rw (w o.nonce, w p.nonce) refl,
                          (rw (w o.deadline, w p.deadline) refl, tt),
                        ),
                      ),
                    ),
                  ),
                ),
              ),
            ),
          ),
        )
        e in
    ground (
      arith,
      inj o.position_id p.position_id,
      inj o.price p.price,
      inj o.amount p.amount,
      inj (side_byte o.side) (side_byte p.side),
      inj o.nonce p.nonce,
      inj o.deadline p.deadline,
      side_byte-inj o.side p.side,
    )

-- If `to_be_bytes` writes 32 bytes and different bytes for different u256 numbers, then
-- different orders, with fields in the ranges of their types, have different encodings.
pub encode_order-inj :
    (crypto : Crypto)
    → ((n : ℕ) → length (crypto.to_be_bytes n) ≡ 32)
    → ((m n : ℕ)
        → m < u256_mod
        → n < u256_mod
        → crypto.to_be_bytes m ≡ crypto.to_be_bytes n
        → m ≡ n)
    → (o p : Order) → IsTyped o
    → IsTyped p
    → o ≢ p
    → encode_order crypto o ≢ encode_order crypto p
encode_order-inj crypto w inj o p t u n e = n (encode_order-same crypto w inj o p t u e)
