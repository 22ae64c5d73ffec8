-- ===== src/Shared/Wire/Laws.antt =====
-- What is read from JSON is in the ranges of the types.
use omniscient.Prelude.{
  ℕ, ◌≡◌, ◌<◌, ◌-◌, ◌++◌, [], ◌∷◌, if◌then◌else◌, ltb, List, length, Option, none, some, arith,
  u64_mod, u256_mod,
}
use omniscient.Shared.Domain.{Address, OrderSide}
use omniscient.Shared.Order.{Bytes32, Order, SignedOrder}
use omniscient.Shared.Hex.{Text, strip_prefix, zero_x, address_from_hex, bytes32_from_hex}
use omniscient.Shared.Hex.Laws.{length-from_hex}
use omniscient.Shared.Signing.{replicate}
use omniscient.Shared.Signing.Laws.{IsTyped}
use omniscient.Shared.Json.{
  Value, string, number, array, object, other, field_of, number_below, ◌>>=◌,
}
use omniscient.Shared.Wire.{
  or_else, deserialize_side, Formats, deserialize_address, deserialize_bytes32, deserialize_u256,
  deserialize_hex_bytes, u256_of_text, number_of_hex, deserialize_order, deserialize_signed_order,
}

-- An order from what was read for its fields.
abbrev pub order_of :
    Option Bytes32
    → Option Address
    → Option ℕ
    → Option ℕ
    → Option ℕ
    → Option OrderSide
    → Option ℕ
    → Option ℕ
    → Option Order
order_of salt maker position_id price amount side count until = do
  salt ← salt
  maker ← maker
  position_id ← position_id
  price ← price
  amount ← amount
  side ← side
  nonce ← count
  deadline ← until
  some (record {
    salt = salt;
    maker = maker;
    position_id = position_id;
    price = price;
    amount = amount;
    side = side;
    nonce = nonce;
    deadline = deadline;
  })

order_of-some :
    (salt : Option Bytes32) (maker : Option Address) (position_id price amount : Option ℕ)
    (side : Option OrderSide) (count until : Option ℕ) (o : Order)
    → order_of salt maker position_id price amount side count until ≡ some o
    → (salt ≡ some o.salt)
      × (maker ≡ some o.maker)
      × (position_id ≡ some o.position_id)
      × (price ≡ some o.price)
      × (amount ≡ some o.amount)
      × (count ≡ some o.nonce)
      × (until ≡ some o.deadline)
order_of-some salt maker position_id price amount side count until o e = ground arith

-- What holds of all that a reader gives holds of a field that it reads.
of_field :
    {A : Type 0} (d : Value → Option A) (P : A → Type 0)
    → ((v : Value) (a : A) → d v ≡ some a → P a)
    → (m : Option Value) {a : A} → (m >>= d) ≡ some a
    → P a
of_field d P h none e = cc
of_field d P h (some v) {a = a} e = h v a e

number_below-lt : (limit : ℕ) (v : Value) (n : ℕ) → number_below limit v ≡ some n → n < limit
number_below-lt limit v n e = ground arith

read_u64 : (m : Option Value) {n : ℕ} → (m >>= number_below u64_mod) ≡ some n → n < u64_mod
read_u64 m e = of_field (number_below u64_mod) (λ n. n < u64_mod) (number_below-lt u64_mod) m e

module _ (f : Formats) where
  length-deserialize_address :
      (v : Value) (a : Address) → deserialize_address f v ≡ some a → length a.bytes ≡ 20
  unfolding deserialize_address address_from_hex
  length-deserialize_address (string s) a e = ground (arith, length-from_hex f.hex 20 s a.bytes)
  length-deserialize_address (number n) a e = cc
  length-deserialize_address (array vs) a e = cc
  length-deserialize_address (object fs) a e = cc
  length-deserialize_address other a e = cc

  length-deserialize_bytes32 :
      (v : Value) (a : Bytes32) → deserialize_bytes32 f v ≡ some a → length a.bytes ≡ 32
  unfolding deserialize_bytes32 bytes32_from_hex
  length-deserialize_bytes32 (string s) a e = ground (arith, length-from_hex f.hex 32 s a.bytes)
  length-deserialize_bytes32 (number n) a e = cc
  length-deserialize_bytes32 (array vs) a e = cc
  length-deserialize_bytes32 (object fs) a e = cc
  length-deserialize_bytes32 other a e = cc

  deserialize_order-amount :
      (v : Value) (o : Order) → deserialize_order f v ≡ some o → o.amount < u64_mod
  unfolding deserialize_order
  deserialize_order-amount v o e =
      let parts =
        order_of-some (field_of "salt" 0 8 v >>= deserialize_bytes32 f)
          (field_of "maker" 1 8 v >>= deserialize_address f)
          (field_of "position_id" 2 8 v >>= deserialize_u256 f)
          (field_of "price" 3 8 v >>= number_below u64_mod)
          (field_of "amount" 4 8 v >>= number_below u64_mod)
          (field_of "side" 5 8 v >>= deserialize_side)
          (field_of "nonce" 6 8 v >>= number_below u64_mod)
          (field_of "deadline" 7 8 v >>= number_below u64_mod) o e in
      read_u64 (field_of "amount" 4 8 v) parts.4

  module _ (reads : (bs : List ℕ) → f.from_be_bytes bs < u256_mod)
      (parses : (s : Text) (n : ℕ) → f.parse_u256 s ≡ some n → n < u256_mod) where
    deserialize_u256-lt : (v : Value) (n : ℕ) → deserialize_u256 f v ≡ some n → n < u256_mod
    unfolding deserialize_u256 u256_of_text number_of_hex
    deserialize_u256-lt (string s) n e =
        by_text (or_else (strip_prefix zero_x s) (strip_prefix (b'0' ∷ b'X' ∷ []) s)) e
      where
        by_digits :
            (b : Option (List ℕ))
            → (b >>= λ bs.
                if ltb 32 (length bs)
                then none
                else some (f.from_be_bytes (replicate (32 - length bs) 0 ++ bs)))
              ≡ some n
            → n < u256_mod
        by_digits none e = cc
        by_digits (some bs) e = ground (arith, reads (replicate (32 - length bs) 0 ++ bs))

        by_text :
            (d : Option Text)
            → elim d as (λ _. Option ℕ) [
              | some digits ↦ number_of_hex f digits
              | none ↦ f.parse_u256 s
            ]
              ≡ some n
            → n < u256_mod
        by_text none e = parses s n e
        by_text (some d) e = by_digits (f.decode d) e
    deserialize_u256-lt (number n) a e = cc
    deserialize_u256-lt (array vs) a e = cc
    deserialize_u256-lt (object fs) a e = cc
    deserialize_u256-lt other a e = cc

    -- If alloy's two readers give u256 numbers: whatever JSON an order is read from, its fields are in
    -- the ranges of their types.
    pub deserialize_order-IsTyped :
        (v : Value) (o : Order) → deserialize_order f v ≡ some o → IsTyped o
    unfolding deserialize_order
    deserialize_order-IsTyped v o e =
        let parts =
          order_of-some (field_of "salt" 0 8 v >>= deserialize_bytes32 f)
            (field_of "maker" 1 8 v >>= deserialize_address f)
            (field_of "position_id" 2 8 v >>= deserialize_u256 f)
            (field_of "price" 3 8 v >>= number_below u64_mod)
            (field_of "amount" 4 8 v >>= number_below u64_mod)
            (field_of "side" 5 8 v >>= deserialize_side)
            (field_of "nonce" 6 8 v >>= number_below u64_mod)
            (field_of "deadline" 7 8 v >>= number_below u64_mod) o e in
        record {
          salt_length =
              of_field (deserialize_bytes32 f) (λ a. length a.bytes ≡ 32) length-deserialize_bytes32
                (field_of "salt" 0 8 v) parts.0;
          maker_length =
              of_field (deserialize_address f) (λ a. length a.bytes ≡ 20) length-deserialize_address
                (field_of "maker" 1 8 v) parts.1;
          position_id_lt =
              of_field (deserialize_u256 f) (λ n. n < u256_mod) deserialize_u256-lt
                (field_of "position_id" 2 8 v) parts.2;
          price_lt = read_u64 (field_of "price" 3 8 v) parts.3;
          amount_lt = read_u64 (field_of "amount" 4 8 v) parts.4;
          nonce_lt = read_u64 (field_of "nonce" 6 8 v) parts.5;
          deadline_lt = read_u64 (field_of "deadline" 7 8 v) parts.6;
        }

  pub deserialize_signed_order-amount :
      (v : Value) (s : SignedOrder)
      → deserialize_signed_order f v ≡ some s
      → s.order.amount < u64_mod
  unfolding deserialize_signed_order
  deserialize_signed_order-amount v s e =
      by_order (field_of "order" 0 2 v) (field_of "signature" 1 2 v >>= deserialize_hex_bytes f) e
    where
      by_order :
          (o : Option Value) (b : Option (List ℕ))
          → (do
            order ← o >>= deserialize_order f
            signature ← b
            some (record { order = order; signature = signature }))
            ≡ some s
          → s.order.amount < u64_mod
      by_order none b e = cc
      by_order (some v) none e = absurd (ground arith)
      by_order (some v) (some b) e = deserialize_order-amount v s.order (ground arith)
