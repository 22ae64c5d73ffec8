-- ===== src/Shared/Tests/Signing.antt =====
-- The encoding of orders with big-endian numbers.
use omniscient.Prelude.{
  ℕ, zero, suc, ◌+◌, ◌*◌, ◌/◌, ◌%◌, ◌<◌, ◌≡◌, ◌≢◌, refl, sym, ap, ◌∙◌, some, List, [], ◌∷◌, ◌++◌,
  length, arith,
}
use omniscient.Shared.Domain.{buy}
use omniscient.Shared.Order.{Order}
use omniscient.Shared.Signing.{Crypto, replicate, encode_order}
use omniscient.Shared.Signing.Laws.{append-inj, IsTyped, encode_order-inj}

abbrev pub big_endian : ℕ → ℕ → List ℕ
big_endian zero n = []
big_endian (suc k) n = big_endian k (n / 256) ++ n % 256 ∷ []

abbrev pub bound : ℕ → ℕ
bound zero = 1
bound (suc k) = 256 * bound k

length-append_one : (xs : List ℕ) (x : ℕ) → length (xs ++ x ∷ []) ≡ suc (length xs)
length-append_one [] x = refl
length-append_one (y ∷ xs) x = let e = length-append_one xs x in omega arith

pub length-big_endian : (k n : ℕ) → length (big_endian k n) ≡ k
length-big_endian zero n = refl
length-big_endian (suc k) n =
    length-append_one (big_endian k (n / 256)) (n % 256) ∙ ap suc (length-big_endian k (n / 256))

big_endian-inj : (k m n : ℕ) → m < bound k → n < bound k → big_endian k m ≡ big_endian k n → m ≡ n
big_endian-inj zero m n h i e = omega arith
big_endian-inj (suc k) m n h i e =
    let p =
      append-inj (big_endian k (m / 256)) (big_endian k (n / 256)) (m % 256 ∷ []) (n % 256 ∷ [])
        (length-big_endian k (m / 256) ∙ sym (length-big_endian k (n / 256))) e in
    let q = big_endian-inj k (m / 256) (n / 256) (omega arith) (omega arith) p.0 in
    let r : m % 256 ≡ n % 256 = ground (arith, p.1) in omega arith

abbrev pub value : ℕ → List ℕ → ℕ
value n [] = n
value n (b ∷ bs) = value (n * 256 + b) bs

value-append_one : (n : ℕ) (bs : List ℕ) (b : ℕ) → value n (bs ++ b ∷ []) ≡ value n bs * 256 + b
value-append_one n [] b = refl
value-append_one n (c ∷ bs) b = value-append_one (n * 256 + c) bs b

pub value-big_endian : (k n : ℕ) → n < bound k → value 0 (big_endian k n) ≡ n
value-big_endian zero n h = omega arith
value-big_endian (suc k) n h =
    let e = value-append_one 0 (big_endian k (n / 256)) (n % 256) in
    let i = value-big_endian k (n / 256) (omega arith) in omega arith

abbrev pub crypto : Crypto
crypto = record {
  keccak256 = λ bs. bs;
  to_be_bytes = big_endian 32;
  parse_signature = λ s. some s;
  recover_address = λ s digest. some (replicate 20 1);
}

abbrev pub order : ℕ → Order
order salt = record {
  salt = record { bytes = replicate 32 salt };
  maker = record { bytes = replicate 20 1 };
  position_id = 9;
  price = 333_333;
  amount = 10;
  side = buy;
  nonce = 0;
  deadline = 0;
}

-- The first byte of the salt.
abbrev salt_start : Order → ℕ
salt_start o = elim o.salt.bytes [ [] ↦ 0 | x ∷ xs ↦ x ]

pub order-IsTyped : (salt : ℕ) → IsTyped (order salt)
order-IsTyped salt = record {
  salt_length = refl;
  maker_length = refl;
  position_id_lt = omega arith;
  price_lt = omega arith;
  amount_lt = omega arith;
  nonce_lt = omega arith;
  deadline_lt = omega arith;
}

encode_order-inj_example : encode_order crypto (order 5) ≢ encode_order crypto (order 6)
encode_order-inj_example =
    encode_order-inj crypto (length-big_endian 32) (big_endian-inj 32) (order 5) (order 6)
      (order-IsTyped 5) (order-IsTyped 6) (λ e. let s = ap salt_start e in omega arith)
