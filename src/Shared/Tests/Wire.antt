-- ===== src/Shared/Tests/Wire.antt =====
-- Orders as JSON at concrete inputs.
use omniscient.Prelude.{
  ℕ, zero, suc, ◌-◌, ◌/◌, ◌%◌, ◌≤◌, ◌<◌, ◌≡◌, refl, Option, none, some, List, [], ◌∷◌, ◌++◌, All,
  length, ◌==◌, if◌then◌else◌, arith, u256_mod,
}
use omniscient.Shared.Order.{Order}
use omniscient.Shared.Hex.{Text, zero_x}
use omniscient.Shared.Hex.Laws.{IsDigit}
use omniscient.Shared.Signing.{replicate}
use omniscient.Shared.Signing.Laws.{IsTyped}
use omniscient.Shared.Wire.{
  Formats, deserialize_order, serialize_order, deserialize_signed_order, serialize_signed_order,
}
use omniscient.Shared.Wire.Laws.{deserialize_order-IsTyped}
use omniscient.Shared.Wire.Trip.{quantity, deserialize_order-serialize_order}
use omniscient.Shared.Tests.Codec.{codec, encode, join, value, value-digit}
use omniscient.Shared.Tests.Signing as Signing

pub decode : Text → Option (List ℕ)
decode [] = some []
decode (h ∷ []) = none
decode (h ∷ (l ∷ s)) = join (value h) (value l) (decode s)

decode-encode : (bs : List ℕ) → All (λ x. x < 256) bs → decode (encode bs) ≡ some bs
unfolding decode
decode-encode [] h = refl
decode-encode (b ∷ bs) h =
    rw
      (
        value-digit (b / 16 % 16) (omega arith),
        value-digit (b % 16) (omega arith),
        decode-encode bs h.1,
      )
      (let k = h.0 in ground arith)

decode-odd : (s : Text) → All IsDigit s → length s % 2 ≡ 1 → decode s ≡ none
unfolding decode
decode-odd [] d h = cc
decode-odd (c ∷ []) d h = refl
decode-odd (c ∷ (e ∷ s)) d h = rw (decode-odd s d.1.1 (omega arith)) (ground arith)

strip_zeros : List ℕ → List ℕ
strip_zeros [] = []
strip_zeros (b ∷ bs) = if b == 0 then strip_zeros bs else b ∷ bs

bytes-strip_zeros : (bs : List ℕ) → All (λ x. x < 256) bs → All (λ x. x < 256) (strip_zeros bs)
unfolding strip_zeros
bytes-strip_zeros [] h = tt
bytes-strip_zeros (b ∷ bs) h = ground (arith, bytes-strip_zeros bs h.1)

length-strip_zeros : (bs : List ℕ) → length (strip_zeros bs) ≤ length bs
unfolding strip_zeros
length-strip_zeros [] = omega arith
length-strip_zeros (b ∷ bs) = ground (arith, length-strip_zeros bs)

value-strip_zeros : (bs : List ℕ) → Signing.value 0 (strip_zeros bs) ≡ Signing.value 0 bs
unfolding strip_zeros
value-strip_zeros [] = refl
value-strip_zeros (b ∷ bs) = ground (arith, value-strip_zeros bs)

value-zeros : (k : ℕ) (bs : List ℕ) → Signing.value 0 (replicate k 0 ++ bs) ≡ Signing.value 0 bs
value-zeros zero bs = refl
value-zeros (suc k) bs = value-zeros k bs

pub trimmed : ℕ → List ℕ
trimmed n = strip_zeros (Signing.big_endian 32 n)

All-append_one :
    (xs : List ℕ) (x : ℕ) → All (λ x. x < 256) xs → x < 256 → All (λ x. x < 256) (xs ++ x ∷ [])
All-append_one [] x h k = (k, tt)
All-append_one (y ∷ xs) x h k = (h.0, All-append_one xs x h.1 k)

bytes-big_endian : (k n : ℕ) → All (λ x. x < 256) (Signing.big_endian k n)
bytes-big_endian zero n = tt
bytes-big_endian (suc k) n =
    All-append_one (Signing.big_endian k (n / 256)) (n % 256) (bytes-big_endian k (n / 256))
      (omega arith)

trimmed_bytes : (n : ℕ) → All (λ x. x < 256) (trimmed n)
unfolding trimmed
trimmed_bytes n = bytes-strip_zeros (Signing.big_endian 32 n) (bytes-big_endian 32 n)

length-trimmed : (n : ℕ) → length (trimmed n) ≤ 32
unfolding trimmed
length-trimmed n =
    let l = Signing.length-big_endian 32 n in
    let s = length-strip_zeros (Signing.big_endian 32 n) in omega arith

abbrev pub formats : Formats
formats = record {
  hex = codec;
  decode = decode;
  from_be_bytes = λ bs. Signing.value 0 bs % u256_mod;
  parse_u256 = λ s. some (length s % u256_mod);
  u256_text = λ n. zero_x ++ quantity (encode (trimmed n));
  parse_uuid = λ s. some (length s);
  uuid_text = λ n. [];
}

back :
    (n : ℕ)
    → n < u256_mod
    → formats.from_be_bytes (replicate (32 - length (trimmed n)) 0 ++ trimmed n) ≡ n
unfolding trimmed
back n h =
    let z = value-zeros (32 - length (trimmed n)) (trimmed n) in
    let s = value-strip_zeros (Signing.big_endian 32 n) in
    let v = Signing.value-big_endian 32 n h in omega arith

abbrev order : Order
order = record (Signing.order 5) { position_id = 18 }

order-IsTyped : IsTyped order
order-IsTyped = record {
  salt_length = refl;
  maker_length = refl;
  position_id_lt = omega arith;
  price_lt = omega arith;
  amount_lt = omega arith;
  nonce_lt = omega arith;
  deadline_lt = omega arith;
}

read_back :
    (o : Order)
    → IsTyped o
    → All (λ x. x < 256) o.salt.bytes
    → All (λ x. x < 256) o.maker.bytes
    → deserialize_order formats (serialize_order formats o)
      ≡ (if length (formats.u256_text o.position_id) % 2 == 0 then some o else none)
read_back o t sb mb =
    (deserialize_order-serialize_order formats decode-encode decode-odd trimmed trimmed_bytes
      length-trimmed back (λ n. refl) o [] t sb mb).0

-- The position id 18 is written as 0x12, and 9 as 0x9.
deserialize_order-serialize_order_example :
    (deserialize_order formats (serialize_order formats order) ≡ some order)
    × (deserialize_signed_order formats
          (serialize_signed_order formats (record { order = order; signature = replicate 65 0 }))
        ≡ none)
unfolding decode trimmed strip_zeros
deserialize_order-serialize_order_example =
    deserialize_order-serialize_order formats decode-encode decode-odd trimmed trimmed_bytes
      length-trimmed back (λ n. refl) order (replicate 65 0) order-IsTyped (ground arith)
      (ground arith)

order_with_9 : deserialize_order formats (serialize_order formats (Signing.order 5)) ≡ none
unfolding decode trimmed strip_zeros
order_with_9 = read_back (Signing.order 5) (Signing.order-IsTyped 5) (ground arith) (ground arith)

order_with_18 : deserialize_order formats (serialize_order formats order) ≡ some order
unfolding decode trimmed strip_zeros
order_with_18 = read_back order order-IsTyped (ground arith) (ground arith)

deserialize_order-IsTyped_example : IsTyped order
deserialize_order-IsTyped_example =
    deserialize_order-IsTyped formats (λ bs. omega arith) (λ s n e. ground arith)
      (serialize_order formats order) order order_with_18
