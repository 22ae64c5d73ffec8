-- ===== src/Shared/Hex/Laws.antt =====
-- Round trips of the hex texts, and what is refused.
use omniscient.Prelude.{
  ℕ, ◌+◌, ◌*◌, ◌<◌, ◌≡◌, refl, sym, ap, subst, ◌∙◌, true, false, ◌&&◌, ◌||◌, none, some, List, [],
  ◌∷◌, ◌++◌, All, All-map, All-reverse, length, reverse, reverse-append, append-nil, leb, arith,
}
use mathlib.Core.List.{reverse-reverse}
use omniscient.Prelude.Result.{ok, err}
use omniscient.Shared.Hex.{
  Text, HexCodec, wrong_length, is_whitespace, trim_start, trim, strip_prefix, len, zero_x,
  unwrap_or, from_hex, to_text,
}

abbrev pub IsDigit : ℕ → Type 0
IsDigit c = ((leb b'0' c && leb c b'9') || (leb b'a' c && leb c b'f')) ≡ true

abbrev IsSpace : ℕ → Type 0
IsSpace c = is_whitespace c ≡ true

digit_not_space : (c : ℕ) → IsDigit c → is_whitespace c ≡ false
unfolding is_whitespace
digit_not_space c h = ground arith

len_digits : (s : Text) → All IsDigit s → len s ≡ length s
unfolding len
len_digits [] h = refl
len_digits (c ∷ s) h = ground (arith, len_digits s h.1)

trim_start-spaces : (w s : Text) → All IsSpace w → trim_start (w ++ s) ≡ trim_start s
unfolding trim_start
trim_start-spaces [] s h = refl
trim_start-spaces (c ∷ w) s h = rw h.0 (trim_start-spaces w s h.1)

trim_start-solid : (s : Text) → All (λ x. is_whitespace x ≡ false) s → trim_start s ≡ s
unfolding trim_start
trim_start-solid [] h = refl
trim_start-solid (c ∷ s) h = rw h.0 refl

-- A text with no white space in it, between white space, is what trimming leaves.
trim_between :
    (w : Text) (c : ℕ) (s w' : Text)
    → All IsSpace w
    → All IsSpace w'
    → All (λ x. is_whitespace x ≡ false) (c ∷ s)
    → trim (w ++ ((c ∷ s) ++ w')) ≡ c ∷ s
unfolding trim trim_start
trim_between w c s w' h h' n =
    rw
      (
        trim_start-spaces w ((c ∷ s) ++ w') h,
        trim_start-stays,
        reverse-append (c ∷ s) w',
        trim_start-spaces (reverse w') (reverse (c ∷ s)) (All-reverse IsSpace w' h'),
        trim_start-solid (reverse (c ∷ s)) (All-reverse (λ x. is_whitespace x ≡ false) (c ∷ s) n),
      )
      (reverse-reverse (c ∷ s))
  where
    trim_start-stays : trim_start ((c ∷ s) ++ w') ≡ (c ∷ s) ++ w'
    trim_start-stays = rw n.0 refl

module _ (hex : HexCodec) where
  encode-solid : (bs : List ℕ) → All (λ x. is_whitespace x ≡ false) (hex.encode bs)
  encode-solid bs =
      All-map IsDigit (λ x. is_whitespace x ≡ false) digit_not_space (hex.encode bs)
        (hex.encode_digits bs)

  len-encode : (bs : List ℕ) → len (hex.encode bs) ≡ 2 * length bs
  len-encode bs = len_digits (hex.encode bs) (hex.encode_digits bs) ∙ hex.length-encode bs

  -- For bytes of the wanted number, `from_hex` reads back what `Display` writes, with any white
  -- space around it.
  pub from_hex-to_text :
      (size : ℕ) (bs : List ℕ) (w w' : Text)
      → length bs ≡ size
      → All (λ x. x < 256) bs
      → All IsSpace w
      → All IsSpace w'
      → from_hex hex size (w ++ (to_text hex bs ++ w')) ≡ ok bs
  unfolding from_hex to_text strip_prefix is_whitespace
  from_hex-to_text size bs w w' e b h h' =
      rw
        (
          trim_between w b'0' (b'x' ∷ hex.encode bs) w' h h' (refl, (refl, encode-solid bs)),
          len-encode bs,
          e,
        )
        (ground (
          arith,
          subst (λ n. hex.decode_to_slice (hex.encode bs) n ≡ some bs) e (hex.decode-encode bs b),
        ))

  -- `from_hex` gives the wanted number of bytes.
  pub length-from_hex :
      (size : ℕ) (s : Text) (bs : List ℕ) → from_hex hex size s ≡ ok bs → length bs ≡ size
  unfolding from_hex
  length-from_hex size s bs h =
      ground (arith, hex.length-decode (unwrap_or (strip_prefix zero_x (trim s)) s) size bs)

len-append : (s t : Text) → len (s ++ t) ≡ len s + len t
unfolding len
len-append [] t = ground arith
len-append (c ∷ s) t = ground (arith, len-append s t)

positive-len : (c : ℕ) (s : Text) → 0 < len (c ∷ s)
unfolding len
positive-len c s = ground arith

strip_prefix-digits : (s : Text) → All IsDigit s → strip_prefix zero_x s ≡ none
unfolding strip_prefix
strip_prefix-digits [] h = refl
strip_prefix-digits (c ∷ []) h = ground arith
strip_prefix-digits (c ∷ d ∷ s) h = ground arith

module _ (hex : HexCodec) where
  -- The right number of digits without the prefix `0x`, after some white space, is refused: the
  -- white space is counted.
  pub from_hex-unprefixed :
      (size : ℕ) (c : ℕ) (w : Text) (d : ℕ) (s : Text)
      → All IsSpace (c ∷ w)
      → All IsDigit (d ∷ s)
      → length (d ∷ s) ≡ 2 * size
      → from_hex hex size ((c ∷ w) ++ (d ∷ s)) ≡ err (wrong_length (len (c ∷ w) + 2 * size))
  unfolding from_hex
  from_hex-unprefixed size c w d s h g e =
      let solid : All (λ x. is_whitespace x ≡ false) (d ∷ s) =
        All-map IsDigit (λ x. is_whitespace x ≡ false) digit_not_space (d ∷ s) g in
      let trimmed : trim ((c ∷ w) ++ (d ∷ s)) ≡ d ∷ s =
        ap (λ t. trim ((c ∷ w) ++ t)) (sym (append-nil (d ∷ s)))
        ∙ trim_between (c ∷ w) d s [] h tt solid in
      rw
        (
          trimmed,
          strip_prefix-digits (d ∷ s) g,
          len-append (c ∷ w) (d ∷ s),
          len_digits (d ∷ s) g,
          e,
        )
        (ground (arith, positive-len c w))
