-- ===== src/Shared/Tests/Codec.antt =====
-- A codec for hex texts with lower-case digits.
use omniscient.Prelude.{
  ℕ, zero, suc, ◌+◌, ◌-◌, ◌*◌, ◌/◌, ◌%◌, ◌<◌, ◌≡◌, refl, ap, true, ◌&&◌, ◌||◌, Option, none, some,
  List, [], ◌∷◌, All, length, ltb, leb, if◌then◌else◌, arith,
}
use omniscient.Shared.Hex.{Text, HexCodec}

abbrev pub digit : ℕ → ℕ
digit n = if ltb n 10 then b'0' + n else b'a' + (n - 10)

abbrev pub value : ℕ → Option ℕ
value c =
    if leb b'0' c && leb c b'9'
    then some (c - b'0')
    else if leb b'a' c && leb c b'f'
    then some (c - b'a' + 10)
    else none

abbrev pub encode : List ℕ → Text
encode [] = []
encode (b ∷ bs) = digit (b / 16 % 16) ∷ digit (b % 16) ∷ encode bs

abbrev pub join : Option ℕ → Option ℕ → Option (List ℕ) → Option (List ℕ)
join (some h) (some l) (some bs) = some ((h * 16 + l) ∷ bs)
join _ _ _ = none

unfoldable pub decode : Text → ℕ → Option (List ℕ)
decode [] zero = some []
decode (h ∷ l ∷ s) (suc n) = join (value h) (value l) (decode s n)
decode _ _ = none

digit_is_digit :
    (n : ℕ)
    → n < 16
    → ((leb b'0' (digit n) && leb (digit n) b'9') || (leb b'a' (digit n) && leb (digit n) b'f'))
      ≡ true
digit_is_digit n h = ground arith

pub value-digit : (n : ℕ) → n < 16 → value (digit n) ≡ some n
value-digit n h = ground arith

pub encode_digits :
    (bs : List ℕ)
    → All (λ c. ((leb b'0' c && leb c b'9') || (leb b'a' c && leb c b'f')) ≡ true) (encode bs)
encode_digits [] = tt
encode_digits (b ∷ bs) = (
  digit_is_digit (b / 16 % 16) (omega arith),
  (digit_is_digit (b % 16) (omega arith), encode_digits bs),
)

pub length-encode : (bs : List ℕ) → length (encode bs) ≡ 2 * length bs
length-encode [] = refl
length-encode (b ∷ bs) = let e = length-encode bs in omega arith

pub decode-encode : (bs : List ℕ) → All (λ x. x < 256) bs → decode (encode bs) (length bs) ≡ some bs
unfolding decode
decode-encode [] h = refl
decode-encode (b ∷ bs) h =
    rw
      (
        value-digit (b / 16 % 16) (omega arith),
        value-digit (b % 16) (omega arith),
        decode-encode bs h.1,
      )
      (ap (λ x. some (x ∷ bs)) byte)
  where
    byte : b / 16 % 16 * 16 + b % 16 ≡ b
    byte = let k = h.0 in omega arith

pub length-decode : (s : Text) (n : ℕ) (bs : List ℕ) → decode s n ≡ some bs → length bs ≡ n
unfolding decode
length-decode [] zero bs h = ground arith
length-decode [] (suc n) bs h = ground arith
length-decode (c ∷ []) zero bs h = ground arith
length-decode (c ∷ []) (suc n) bs h = ground arith
length-decode (c ∷ d ∷ s) zero bs h = ground arith
length-decode (c ∷ d ∷ s) (suc n) bs h =
    by_parts (value c) (value d) (decode s n) (length-decode s n) h
  where
    by_parts :
        (u v : Option ℕ) (r : Option (List ℕ))
        → ((bs : List ℕ) → r ≡ some bs → length bs ≡ n)
        → join u v r ≡ some bs
        → length bs ≡ suc n
    by_parts none v r i e = ground arith
    by_parts (some x) none r i e = ground arith
    by_parts (some x) (some y) none i e = ground arith
    by_parts (some x) (some y) (some r) i e = let l = i r refl in ground arith

abbrev pub codec : HexCodec
codec = record {
  encode = encode;
  decode_to_slice = decode;
  encode_digits = encode_digits;
  length-encode = length-encode;
  decode-encode = decode-encode;
  length-decode = length-decode;
}
