-- ===== src/Shared/Wire/Trip.antt =====
-- What is written for an order, and what is read back from it.
use omniscient.Prelude.{
  ℕ, ◌-◌, ◌*◌, ◌%◌, ◌≤◌, ◌<◌, ◌≡◌, Bool, refl, ◌∙◌, true, false, Option, none, some, List, [], ◌∷◌,
  ◌++◌, All, length, append-nil, ltb, ◌==◌, if◌then◌else◌, arith, u64_mod, u256_mod, subst,
}
use omniscient.Prelude.Result.{ok}
use omniscient.Shared.Domain.{Address, OrderSide, bytes_eq}
use omniscient.Shared.Order.{Bytes32, Order, SignedOrder}
use omniscient.Shared.Hex.{
  Text, zero_x, strip_prefix, from_hex, to_text, address_from_hex, bytes32_from_hex,
  address_to_text, bytes32_to_text,
}
use omniscient.Shared.Hex.Laws.{IsDigit, from_hex-to_text}
use omniscient.Shared.Signing.{replicate}
use omniscient.Shared.Signing.Laws.{IsTyped}
use omniscient.Shared.Json.{string, number, entries, number_below, ◌>>=◌}
use omniscient.Shared.Wire.{
  Formats, deserialize_hex_bytes, deserialize_side, serialize_side, deserialize_address,
  deserialize_bytes32, deserialize_u256, u256_of_text, number_of_hex, deserialize_order,
  deserialize_signed_order, serialize_order, serialize_signed_order,
}
use omniscient.Shared.Wire.Laws.{order_of}

side_trip : (s : OrderSide) → deserialize_side (serialize_side s) ≡ some s
unfolding deserialize_side
side_trip s = ground arith

number_trip : (n : ℕ) → n < u64_mod → number_below u64_mod (number n) ≡ some n
number_trip n h = ground arith

-- Without a leading zero, but with one digit at least.
abbrev pub quantity : Text → Text
quantity [] = b'0' ∷ []
quantity (c ∷ s) = if c == b'0' then s else c ∷ s

order_of-trip :
    (salt : Option Bytes32) (maker : Option Address) (position_id price amount : Option ℕ)
    (side : Option OrderSide) (count until : Option ℕ) (c : Bool) (o : Order)
    → salt ≡ some o.salt
    → maker ≡ some o.maker
    → position_id ≡ (if c then some o.position_id else none)
    → price ≡ some o.price
    → amount ≡ some o.amount
    → side ≡ some o.side
    → count ≡ some o.nonce
    → until ≡ some o.deadline
    → order_of salt maker position_id price amount side count until ≡ (if c then some o else none)
order_of-trip salt maker position_id price amount side count until true o e0 e1 e2 e3 e4 e5 e6 e7 =
    rw (e0, e1, e2, e3, e4, e5, e6, e7) refl
order_of-trip salt maker position_id price amount side count until false o e0 e1 e2 e3 e4 e5 e6 e7 =
    rw (e0, e1, e2) refl

module _ (f : Formats) where
  from_hex-trip :
      (size : ℕ) (bs : List ℕ)
      → length bs ≡ size
      → All (λ x. x < 256) bs
      → from_hex f.hex size (to_text f.hex bs) ≡ ok bs
  from_hex-trip size bs e b =
      subst (λ (t : Text). from_hex f.hex size t ≡ ok bs) (append-nil (to_text f.hex bs))
        (from_hex-to_text f.hex size bs [] [] e b tt tt)

  address_trip :
      (a : Address)
      → length a.bytes ≡ 20
      → All (λ x. x < 256) a.bytes
      → deserialize_address f (string (address_to_text f.hex a)) ≡ some a
  unfolding deserialize_address address_from_hex address_to_text
  address_trip a e b = rw (from_hex-trip 20 a.bytes e b) refl

  bytes32_trip :
      (a : Bytes32)
      → length a.bytes ≡ 32
      → All (λ x. x < 256) a.bytes
      → deserialize_bytes32 f (string (bytes32_to_text f.hex a)) ≡ some a
  unfolding deserialize_bytes32 bytes32_from_hex bytes32_to_text
  bytes32_trip a e b = rw (from_hex-trip 32 a.bytes e b) refl

  deserialize_signed_order-serialize_signed_order :
      (s : SignedOrder) → deserialize_signed_order f (serialize_signed_order f s) ≡ none
  unfolding deserialize_signed_order serialize_signed_order entries bytes_eq deserialize_hex_bytes
  deserialize_signed_order-serialize_signed_order s = ground arith

  module _
      (decode-encode : (bs : List ℕ) → All (λ x. x < 256) bs → f.decode (f.hex.encode bs) ≡ some bs)
      (decode-odd : (s : Text) → All IsDigit s → length s % 2 ≡ 1 → f.decode s ≡ none)
      (trimmed : ℕ → List ℕ) (trimmed_bytes : (n : ℕ) → All (λ x. x < 256) (trimmed n))
      (trimmed_length : (n : ℕ) → length (trimmed n) ≤ 32)
      (back : (n : ℕ)
        → n < u256_mod
        → f.from_be_bytes (replicate (32 - length (trimmed n)) 0 ++ trimmed n) ≡ n)
      (written : (n : ℕ) → f.u256_text n ≡ zero_x ++ quantity (f.hex.encode (trimmed n))) where
    number_of_hex-quantity :
        (n : ℕ)
        → n < u256_mod
        → number_of_hex f (quantity (f.hex.encode (trimmed n)))
          ≡ (if length (quantity (f.hex.encode (trimmed n))) % 2 == 0 then some n else none)
    unfolding number_of_hex
    number_of_hex-quantity n h =
        by_text (f.hex.encode (trimmed n)) (f.hex.encode_digits (trimmed n))
          (f.hex.length-encode (trimmed n)) (decode-encode (trimmed n) (trimmed_bytes n))
      where
        by_text :
            (s : Text)
            → All IsDigit s
            → length s ≡ 2 * length (trimmed n)
            → f.decode s ≡ some (trimmed n)
            → (f.decode (quantity s) >>= λ bs.
                if ltb 32 (length bs)
                then none
                else some (f.from_be_bytes (replicate (32 - length bs) 0 ++ bs)))
              ≡ (if length (quantity s) % 2 == 0 then some n else none)
        by_text [] d l e = let o = decode-odd (b'0' ∷ []) (refl, tt) refl in ground arith
        by_text (c ∷ s) d l e =
            let o = decode-odd s d.1 in let t = trimmed_length n in let b = back n h in ground arith

    u256_trip :
        (n : ℕ)
        → n < u256_mod
        → deserialize_u256 f (string (f.u256_text n))
          ≡ (if length (f.u256_text n) % 2 == 0 then some n else none)
    unfolding deserialize_u256 u256_of_text strip_prefix
    u256_trip n h = rw (written n) (number_of_hex-quantity n h ∙ ground arith)

    order_trip :
        (o : Order)
        → IsTyped o
        → All (λ x. x < 256) o.salt.bytes
        → All (λ x. x < 256) o.maker.bytes
        → deserialize_order f (serialize_order f o)
          ≡ (if length (f.u256_text o.position_id) % 2 == 0 then some o else none)
    unfolding deserialize_order serialize_order entries bytes_eq
    order_trip o t sb mb =
        let e0 = bytes32_trip o.salt t.salt_length sb in
        let e1 = address_trip o.maker t.maker_length mb in
        let e2 = u256_trip o.position_id t.position_id_lt in
        let e3 = number_trip o.price t.price_lt in
        let e4 = number_trip o.amount t.amount_lt in
        let e5 = side_trip o.side in
        let e6 = number_trip o.nonce t.nonce_lt in
        let e7 = number_trip o.deadline t.deadline_lt in
        order_of-trip (deserialize_bytes32 f (string (bytes32_to_text f.hex o.salt)))
          (deserialize_address f (string (address_to_text f.hex o.maker)))
          (deserialize_u256 f (string (f.u256_text o.position_id)))
          (number_below u64_mod (number o.price)) (number_below u64_mod (number o.amount))
          (deserialize_side (serialize_side o.side)) (number_below u64_mod (number o.nonce))
          (number_below u64_mod (number o.deadline)) (length (f.u256_text o.position_id) % 2 == 0) o
          e0 e1 e2 e3 e4 e5 e6 e7

    -- If hex's `decode` reads what `encode` writes and refuses an odd number of digits, and alloy writes a
    -- u256 as its bytes in hex behind 0x, without a leading zero: an order with fields in the ranges of
    -- their types is read back from what is written for it if the number of digits of its position
    -- id is even, and is refused if it is odd; with a signature, whatever it is, what is written for it
    -- is refused.
    pub deserialize_order-serialize_order :
        (o : Order) (signature : List ℕ)
        → IsTyped o
        → All (λ x. x < 256) o.salt.bytes
        → All (λ x. x < 256) o.maker.bytes
        → (deserialize_order f (serialize_order f o)
            ≡ (if length (f.u256_text o.position_id) % 2 == 0 then some o else none))
          × (deserialize_signed_order f
                (serialize_signed_order f (record { order = o; signature = signature }))
              ≡ none)
    deserialize_order-serialize_order o signature t sb mb = (
      order_trip o t sb mb,
      deserialize_signed_order-serialize_signed_order (record { order = o; signature = signature }),
    )
