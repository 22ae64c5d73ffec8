-- ===== src/Indexer/Abi/Laws.antt =====
-- The parsers read back what the ABI writes.
use omniscient.Prelude.{
  ℕ, inl, inr, Bool-cases, ◌&&◌, zero, suc, ◌+◌, ◌*◌, ◌%◌, ◌≤◌, ◌<◌, ◌≡◌, refl, sym, ap, ◌∙◌,
  Option, none, some, List, [], ◌∷◌, ◌++◌, All, length, length-append, append_assoc, ltb, leb,
  if◌then◌else◌, arith, add_u64, u64_mod, u256_mod,
}
use omniscient.Store.{Bytes}
use omniscient.Indexer.{Alloy, slice}
use omniscient.Indexer.Abi.Slices.{slice-append}
use omniscient.Indexer.Abi.{panic, returns, read_word, parse_elems, parse_u256_array, parse_string}

module _ (to_be_bytes : ℕ → Bytes) where
  -- Words one after another, and an array and a string as the only argument of a call.
  abbrev pub words : List ℕ → Bytes
  words [] = []
  words (n ∷ ns) = to_be_bytes n ++ words ns

  abbrev pub encode_array : List ℕ → Bytes
  encode_array ns = to_be_bytes 32 ++ (to_be_bytes (length ns) ++ words ns)

  abbrev pub encode_string : Bytes → Bytes
  encode_string text = to_be_bytes 32 ++ (to_be_bytes (length text) ++ text)

  module _ (alloy : Alloy) (width : (n : ℕ) → length (to_be_bytes n) ≡ 32)
      (back : (n : ℕ) → n < u256_mod → alloy.from_be_bytes (to_be_bytes n) ≡ n) where
    read_word-append :
        (xs zs : Bytes) (start n : ℕ)
        → length xs ≡ start
        → n < u256_mod
        → length (xs ++ (to_be_bytes n ++ zs)) < u64_mod
        → read_word alloy start (xs ++ (to_be_bytes n ++ zs)) ≡ returns n
    unfolding read_word
    read_word-append xs zs start n h k l =
        let w = width n in
        let b = back n k in
        let m = length-append xs (to_be_bytes n ++ zs) in
        let m' = length-append (to_be_bytes n) zs in
        let s = slice-append xs (to_be_bytes n) zs start (add_u64 start 32) h (omega arith) in
        ground arith

    length-words : (ns : List ℕ) → length (words ns) ≡ 32 * length ns
    length-words [] = refl
    length-words (n ∷ ns) =
        let e = length-words ns in
        let w = width n in let l = length-append (to_be_bytes n) (words ns) in omega arith

    parse_elems-words :
        (ns : List ℕ) (bytes pre zs : Bytes) (elems_start i : ℕ)
        → All (λ n. n < u256_mod) ns
        → bytes ≡ pre ++ (words ns ++ zs)
        → length pre ≡ elems_start + i * 32
        → length bytes < u64_mod
        → parse_elems alloy bytes elems_start (length ns) i ≡ returns ns
    unfolding parse_elems
    parse_elems-words [] bytes pre zs elems_start i a e h l = refl
    parse_elems-words (n ∷ ns) bytes pre zs elems_start i a e h l =
        let assoc : bytes ≡ pre ++ (to_be_bytes n ++ (words ns ++ zs)) =
          e ∙ ap (λ (r : Bytes). pre ++ r) (append_assoc (to_be_bytes n) (words ns) zs) in
        let size = ap (λ (r : Bytes). length r) assoc in
        let p = length-append pre (to_be_bytes n ++ (words ns ++ zs)) in
        let start : add_u64 elems_start (i * 32 % u64_mod) ≡ length pre = omega arith in
        let first : read_word alloy (add_u64 elems_start (i * 32 % u64_mod)) bytes ≡ returns n =
          ap (λ (r : Bytes). read_word alloy (add_u64 elems_start (i * 32 % u64_mod)) r) assoc
          ∙ read_word-append pre (words ns ++ zs) (add_u64 elems_start (i * 32 % u64_mod)) n
              (sym start) a.0 (omega arith) in
        let w = width n in
        let q = length-append pre (to_be_bytes n) in
        let rest =
          parse_elems-words ns bytes (pre ++ to_be_bytes n) zs elems_start (i + 1) a.1
            (assoc ∙ sym (append_assoc pre (to_be_bytes n) (words ns ++ zs))) (omega arith) l in
        rw first (rw rest refl)

    -- An offset of 32, a length, what it is the length of, and anything behind.
    module _ (n : ℕ) (payload zs bytes : Bytes)
        (is_encoded : bytes ≡ to_be_bytes 32 ++ (to_be_bytes n ++ (payload ++ zs)))
        (fits : length bytes < u64_mod) where
      length-encoded : length bytes ≡ 64 + length payload + length zs
      length-encoded =
          let e = ap (λ (r : Bytes). length r) is_encoded in
          let w = width 32 in
          let v = width n in
          let p = length-append (to_be_bytes 32) (to_be_bytes n ++ (payload ++ zs)) in
          let q = length-append (to_be_bytes n) (payload ++ zs) in
          let r = length-append payload zs in omega arith

      read-offset : read_word alloy 0 bytes ≡ returns 32
      read-offset =
          let e = ap (λ (r : Bytes). length r) is_encoded in
          ap (read_word alloy 0) is_encoded
          ∙ read_word-append [] (to_be_bytes n ++ (payload ++ zs)) 0 32 refl (omega arith)
              (omega arith)

      read-length : n < u256_mod → read_word alloy 32 bytes ≡ returns n
      read-length h =
          let e = ap (λ (r : Bytes). length r) is_encoded in
          ap (read_word alloy 32) is_encoded
          ∙ read_word-append (to_be_bytes 32) (payload ++ zs) 32 n (width 32) (omega arith)
              (omega arith)

    parse_u256_array-encoded :
        (ns : List ℕ) (zs bytes : Bytes)
        → bytes ≡ to_be_bytes 32 ++ (to_be_bytes (length ns) ++ (words ns ++ zs))
        → length bytes < u64_mod
        → All (λ n. n < u256_mod) ns
        → parse_u256_array alloy bytes ≡ returns (some ns)
    unfolding parse_u256_array
    parse_u256_array-encoded ns zs bytes e l a =
        let w = length-words ns in
        let s = length-encoded (length ns) (words ns) zs bytes e l in
        let o = read-offset (length ns) (words ns) zs bytes e l in
        let k = read-length (length ns) (words ns) zs bytes e l (omega arith) in
        let p = length-append (to_be_bytes 32) (to_be_bytes (length ns)) in
        let w32 = width 32 in
        let wn = width (length ns) in
        let b =
          parse_elems-words ns bytes (to_be_bytes 32 ++ to_be_bytes (length ns)) zs 64 0 a
            (e ∙ sym (append_assoc (to_be_bytes 32) (to_be_bytes (length ns)) (words ns ++ zs)))
            (omega arith) l in
        ground arith

    -- Behind a length that is too large.
    parse_elems-short :
        (n : ℕ) (bytes : Bytes) (elems_start i : ℕ)
        → elems_start + i * 32 ≤ length bytes
        → length bytes < elems_start + (i + n) * 32
        → length bytes < u64_mod
        → parse_elems alloy bytes elems_start n i ≡ panic
    unfolding parse_elems read_word
    parse_elems-short zero bytes elems_start i h k l = absurd (omega arith)
    parse_elems-short (suc n) bytes elems_start i h k l =
        let start : add_u64 elems_start (i * 32 % u64_mod) ≡ elems_start + i * 32 = omega arith in
        elim (Bool-cases (leb (elems_start + (i + 1) * 32) (length bytes))) [
          | inl e ↦
              let rest =
                parse_elems-short n bytes elems_start (i + 1) (ground arith) (omega arith) l in
              rw rest (ground arith)
          | inr e ↦ ground arith
        ]

    parse_string-encoded :
        {A : Type 0} (from_utf8 : Bytes → Option A) (text zs bytes : Bytes)
        → bytes ≡ to_be_bytes 32 ++ (to_be_bytes (length text) ++ (text ++ zs))
        → length bytes < u64_mod
        → parse_string alloy from_utf8 bytes ≡ returns (from_utf8 text)
    unfolding parse_string
    parse_string-encoded from_utf8 text zs bytes e l =
        let s = length-encoded (length text) text zs bytes e l in
        let o = read-offset (length text) text zs bytes e l in
        let k = read-length (length text) text zs bytes e l (omega arith) in
        let p = length-append (to_be_bytes 32) (to_be_bytes (length text)) in
        let w32 = width 32 in
        let wn = width (length text) in
        let b : slice 64 (64 + length text) bytes ≡ text =
          ap (λ (r : Bytes). slice 64 (64 + length text) r)
            (e ∙ sym (append_assoc (to_be_bytes 32) (to_be_bytes (length text)) (text ++ zs)))
          ∙ slice-append (to_be_bytes 32 ++ to_be_bytes (length text)) text zs 64 (64 + length text)
              (omega arith) refl in
        let z : add_u64 64 (length text) ≡ 64 + length text = omega arith in ground arith

    -- If `to_be_bytes` writes 32 bytes that are read back: an array of u256 numbers that is encoded as
    -- the only argument of a call, with anything behind it, is read back, and nothing panics.
    pub parse_u256_array-encode_array :
        (ns : List ℕ) (zs : Bytes)
        → All (λ n. n < u256_mod) ns
        → length (encode_array ns ++ zs) < u64_mod
        → parse_u256_array alloy (encode_array ns ++ zs) ≡ returns (some ns)
    parse_u256_array-encode_array ns zs a l =
        parse_u256_array-encoded ns zs (encode_array ns ++ zs)
          (append_assoc (to_be_bytes 32) (to_be_bytes (length ns) ++ words ns) zs
            ∙ ap (λ (r : Bytes). to_be_bytes 32 ++ r)
                (append_assoc (to_be_bytes (length ns)) (words ns) zs))
          l a

    -- So is a string, as `from_utf8` reads its bytes.
    pub parse_string-encode_string :
        {A : Type 0} (from_utf8 : Bytes → Option A) (text zs : Bytes)
        → length (encode_string text ++ zs) < u64_mod
        → parse_string alloy from_utf8 (encode_string text ++ zs) ≡ returns (from_utf8 text)
    parse_string-encode_string from_utf8 text zs l =
        parse_string-encoded from_utf8 text zs (encode_string text ++ zs)
          (append_assoc (to_be_bytes 32) (to_be_bytes (length text) ++ text) zs
            ∙ ap (λ (r : Bytes). to_be_bytes 32 ++ r)
                (append_assoc (to_be_bytes (length text)) text zs))
          l

    -- If `to_be_bytes` writes 32 bytes that are read back: behind an offset of 32 and a u256 length, fewer
    -- bytes than the length asks for are answered by `None` if the length is a u64 and the end that
    -- is computed for it, with the wrap-around, is behind the last byte; otherwise the parser panics.
    pub parse_u256_array-truncated :
        (n : ℕ) (zs : Bytes)
        → n < u256_mod
        → length zs < n * 32
        → 64 + length zs < u64_mod
        → parse_u256_array alloy (to_be_bytes 32 ++ (to_be_bytes n ++ zs)) ≡ (
            if ltb n u64_mod && ltb (64 + length zs) (add_u64 64 (n * 32 % u64_mod))
            then returns none
            else panic)
    unfolding parse_u256_array
    parse_u256_array-truncated n zs h k l =
        let bytes = to_be_bytes 32 ++ (to_be_bytes n ++ zs) in
        let w32 = width 32 in
        let wn = width n in
        let q = length-append (to_be_bytes n) zs in
        let p = length-append (to_be_bytes 32) (to_be_bytes n ++ zs) in
        let o = read-offset n [] zs bytes refl (omega arith) in
        let r = read-length n [] zs bytes refl (omega arith) h in
        let b = parse_elems-short n bytes 64 0 (omega arith) (omega arith) (omega arith) in
        ground arith
