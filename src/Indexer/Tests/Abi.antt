-- ===== src/Indexer/Tests/Abi.antt =====
-- The ABI parsers at concrete inputs.
use omniscient.Prelude.{ℕ, ◌≡◌, some, List, [], ◌∷◌, ◌++◌, arith}
use omniscient.Indexer.{Alloy}
use omniscient.Indexer.Abi.{panic, returns, parse_u256_array, parse_string}
use omniscient.Indexer.Abi.Laws.{
  parse_u256_array-truncated, encode_array, encode_string, parse_u256_array-encode_array,
  parse_string-encode_string,
}
use omniscient.Shared.Tests.Signing.{big_endian, value, length-big_endian, value-big_endian}

abbrev alloy : Alloy
alloy = record { from_be_bytes = value 0; topic_hash = λ e. [] }

abbrev numbers : List ℕ
numbers = 7 ∷ 1_000_000 ∷ []

parse_u256_array-encode_array_example :
    parse_u256_array alloy (encode_array (big_endian 32) numbers ++ 1 ∷ []) ≡ returns (some numbers)
parse_u256_array-encode_array_example =
    parse_u256_array-encode_array (big_endian 32) alloy (length-big_endian 32) (value-big_endian 32)
      numbers (1 ∷ []) (omega arith, (omega arith, tt)) (omega arith)

parse_string-encode_string_example :
    parse_string alloy some (encode_string (big_endian 32) (104 ∷ 105 ∷ []) ++ [])
    ≡ returns (some (104 ∷ 105 ∷ []))
parse_string-encode_string_example =
    parse_string-encode_string (big_endian 32) alloy (length-big_endian 32) (value-big_endian 32)
      some (104 ∷ 105 ∷ []) [] (omega arith)

-- 2 ^ 59 numbers, of which none is there: 32 times their number is 0 as a u64.
parse_u256_array-truncated_example :
    parse_u256_array alloy (big_endian 32 32 ++ (big_endian 32 576_460_752_303_423_488 ++ []))
    ≡ panic
parse_u256_array-truncated_example =
    parse_u256_array-truncated (big_endian 32) alloy (length-big_endian 32) (value-big_endian 32)
      576_460_752_303_423_488 [] (omega arith) (omega arith) (omega arith)
