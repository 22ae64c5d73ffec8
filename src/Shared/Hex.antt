-- ===== src/Shared/Hex.antt =====
-- shared/src/domain.rs: the hex text of `Address`, `MarketId`, `Bytes32` and `BatchId`. A text is the
-- list of its code points.
pub mod Laws
use omniscient.Prelude.{
  ℕ, ◌+◌, ◌*◌, ◌<◌, ◌≡◌, Bool, true, false, ◌&&◌, ◌||◌, Option, none, some, List, [], ◌∷◌, ◌++◌,
  All, length, reverse, ltb, leb, ◌==◌, if◌then◌else◌,
}
use omniscient.Prelude.Result.{Result, ok, err, map_ok}
use omniscient.Shared.Domain.{Address, MarketId}
use omniscient.Shared.Order.{Bytes32}

pub record BatchId : Type 0 where
  pub bytes : List ℕ

abbrev pub Text : Type 0
Text = List ℕ

-- `char::is_whitespace`: the Unicode property White_Space.
unfoldable pub is_whitespace : ℕ → Bool
is_whitespace c =
    (leb 9 c && leb c 13)
    || c == 32
    || c == 0x85
    || c == 0xA0
    || c == 0x1680
    || (leb 0x2000 c && leb c 0x200A)
    || c == 0x2028
    || c == 0x2029
    || c == 0x202F
    || c == 0x205F
    || c == 0x3000

pub trim_start : Text → Text
trim_start [] = []
trim_start (c ∷ s) = if is_whitespace c then trim_start s else c ∷ s

-- `str::trim`
pub trim : Text → Text
unfolding trim_start
trim s = reverse (trim_start (reverse (trim_start s)))

-- `str::strip_prefix`
unfoldable pub strip_prefix : Text → Text → Option Text
strip_prefix [] s = some s
strip_prefix (p ∷ ps) [] = none
strip_prefix (p ∷ ps) (c ∷ s) = if p == c then strip_prefix ps s else none

-- `char::len_utf8`, and `str::len`
abbrev pub len_utf8 : ℕ → ℕ
len_utf8 c = if ltb c 0x80 then 1 else if ltb c 0x800 then 2 else if ltb c 0x10000 then 3 else 4

unfoldable pub len : Text → ℕ
len [] = 0
len (c ∷ s) = len_utf8 c + len s

-- The crate hex, as far as it is relied on: `encode` writes two lower-case digits for each byte,
-- and `decode_to_slice` into a buffer of a given size reads them back.
pub record HexCodec : Type 0 where
  pub encode : List ℕ → Text
  pub decode_to_slice : Text → ℕ → Option (List ℕ)
  pub encode_digits :
      (bs : List ℕ)
      → All (λ c. ((leb b'0' c && leb c b'9') || (leb b'a' c && leb c b'f')) ≡ true) (encode bs)
  pub length-encode : (bs : List ℕ) → length (encode bs) ≡ 2 * length bs
  pub decode-encode :
      (bs : List ℕ) → All (λ x. x < 256) bs → decode_to_slice (encode bs) (length bs) ≡ some bs
  pub length-decode :
      (s : Text) (n : ℕ) (bs : List ℕ) → decode_to_slice s n ≡ some bs → length bs ≡ n

-- The two messages: the length that was found, and hex's error.
pub data DomainError : Type 0 where
  wrong_length : ℕ → DomainError
  hex_decode : DomainError

abbrev pub zero_x : Text
zero_x = b'0' ∷ b'x' ∷ []

-- `unwrap_or`
abbrev pub unwrap_or {ℓ} : {A : Type ℓ} → Option A → A → A
unwrap_or none d = d
unwrap_or (some a) d = a

module _ (hex : HexCodec) where
  -- The four `from_hex`, at their number of bytes.
  unfoldable pub from_hex : ℕ → Text → Result (List ℕ) DomainError
  unfolding trim strip_prefix len
  from_hex size s =
      let stripped = unwrap_or (strip_prefix zero_x (trim s)) s in
      if len stripped == 2 * size
      then (elim (hex.decode_to_slice stripped size) [ none ↦ err hex_decode | some bs ↦ ok bs ])
      else err (wrong_length (len stripped))

  -- The four `Display`
  unfoldable pub to_text : List ℕ → Text
  to_text bs = zero_x ++ hex.encode bs

  unfoldable pub address_from_hex : Text → Result Address DomainError
  address_from_hex s = map_ok (λ bs. record { bytes = bs }) (from_hex 20 s)

  unfoldable pub market_id_from_hex : Text → Result MarketId DomainError
  market_id_from_hex s = map_ok (λ bs. record { bytes = bs }) (from_hex 32 s)

  unfoldable pub bytes32_from_hex : Text → Result Bytes32 DomainError
  bytes32_from_hex s = map_ok (λ bs. record { bytes = bs }) (from_hex 32 s)

  pub batch_id_from_hex : Text → Result BatchId DomainError
  batch_id_from_hex s = map_ok (λ bs. record { bytes = bs }) (from_hex 32 s)

  unfoldable pub address_to_text : Address → Text
  address_to_text a = to_text a.bytes

  pub market_id_to_text : MarketId → Text
  market_id_to_text a = to_text a.bytes

  unfoldable pub bytes32_to_text : Bytes32 → Text
  bytes32_to_text a = to_text a.bytes

  pub batch_id_to_text : BatchId → Text
  batch_id_to_text a = to_text a.bytes

-- The four `TryFrom<&[u8]>`
unfoldable pub try_from_slice : ℕ → List ℕ → Result (List ℕ) DomainError
try_from_slice size value =
    if length value == size then ok value else err (wrong_length (length value))

unfoldable pub address_try_from : List ℕ → Result Address DomainError
address_try_from v = map_ok (λ bs. record { bytes = bs }) (try_from_slice 20 v)

unfoldable pub market_id_try_from : List ℕ → Result MarketId DomainError
market_id_try_from v = map_ok (λ bs. record { bytes = bs }) (try_from_slice 32 v)

pub bytes32_try_from : List ℕ → Result Bytes32 DomainError
bytes32_try_from v = map_ok (λ bs. record { bytes = bs }) (try_from_slice 32 v)

pub batch_id_try_from : List ℕ → Result BatchId DomainError
batch_id_try_from v = map_ok (λ bs. record { bytes = bs }) (try_from_slice 32 v)
