-- ===== src/Indexer/Abi.antt =====
-- backend/indexer/src/abi.rs: the parsers of ABI-encoded arrays and strings. A release build on a
-- 64-bit machine: sums and products of usize wrap around, and a slice out of range panics.
pub mod Slices
pub mod Laws
use omniscient.Prelude.{
  ℕ, zero, suc, ◌+◌, ◌*◌, ◌%◌, Bool, true, false, ◌&&◌, Option, none, some, List, [], ◌∷◌, length,
  ltb, leb, if◌then◌else◌, add_u64, u64_mod,
}
use omniscient.Store.{Bytes}
use omniscient.Indexer.{Alloy, slice}

-- A value, or a panic.
pub data Run (A : Type 0) : Type 0 where
  panic : Run A
  returns : A → Run A

infixl 5 ◌>>=◌
abbrev pub ◌>>=◌ : {A B : Type 0} → Run A → (A → Run B) → Run B
panic >>= f = panic
returns a >>= f = f a

-- `to::<usize>()`
abbrev pub to_usize : ℕ → Run ℕ
to_usize n = if ltb n u64_mod then returns n else panic

-- `data[start..end]`
abbrev pub slice_range : ℕ → ℕ → Bytes → Run Bytes
slice_range start end bytes =
    if leb start end && leb end (length bytes) then returns (slice start end bytes) else panic

-- `data[start..start + 32]` as a number
unfoldable pub read_word : Alloy → ℕ → Bytes → Run ℕ
read_word alloy start bytes = do
  word ← slice_range start (add_u64 start 32) bytes
  returns (alloy.from_be_bytes word)

-- The loop over the elements: how many are left, and the index of the next one.
unfoldable pub parse_elems : Alloy → Bytes → ℕ → ℕ → ℕ → Run (List ℕ)
parse_elems alloy bytes elems_start zero i = returns []
parse_elems alloy bytes elems_start (suc n) i = do
  value ← read_word alloy (add_u64 elems_start (i * 32 % u64_mod)) bytes
  rest ← parse_elems alloy bytes elems_start n (i + 1)
  returns (value ∷ rest)

-- A BigDecimal is the number that it is made from.
unfoldable pub parse_u256_array : Alloy → Bytes → Run (Option (List ℕ))
parse_u256_array alloy bytes = if ltb (length bytes) 64 then returns none else (do
  off ← read_word alloy 0 bytes
  offset ← to_usize off
  if ltb (length bytes) (add_u64 offset 32) then returns none else (do
    word ← read_word alloy offset bytes
    len ← to_usize word
    let elems_start = add_u64 offset 32
    if ltb (length bytes) (add_u64 elems_start (len * 32 % u64_mod))
        then returns none
        else (do out ← parse_elems alloy bytes elems_start len 0; returns (some out))))

-- `String::from_utf8` is a parameter.
unfoldable pub parse_string : {A : Type 0} → Alloy → (Bytes → Option A) → Bytes → Run (Option A)
parse_string alloy from_utf8 bytes = if ltb (length bytes) 64 then returns none else (do
  off ← read_word alloy 0 bytes
  str_offset ← to_usize off
  if ltb (length bytes) (add_u64 str_offset 32) then returns none else (do
    word ← read_word alloy str_offset bytes
    len ← to_usize word
    if ltb (length bytes) (add_u64 (add_u64 str_offset 32) len) then returns none else (do
      text ← slice_range (add_u64 str_offset 32) (add_u64 (add_u64 str_offset 32) len) bytes
      returns (from_utf8 text))))
