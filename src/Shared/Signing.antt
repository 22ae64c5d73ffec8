-- ===== src/Shared/Signing.antt =====
-- shared/src/domain.rs: the EIP-712 hash of an order, and the check of its signature.
pub mod Laws
use Prim.Native.String.{String}
use Prim.Native.Char.{code}
use omniscient.Prelude.{
  ℕ, zero, suc, Option, none, some, List, [], ◌∷◌, ◌++◌, length, ◌==◌, if◌then◌else◌,
}
use omniscient.Prelude.Result.{Result, ok, err}
use omniscient.Shared.Domain.{OrderSide, buy, sell}
use omniscient.Shared.Order.{Order}

-- `str::as_bytes`, of an ASCII text
abbrev pub as_bytes : String → List ℕ
as_bytes String.[] = []
as_bytes (String.◌∷◌ c s) = code c ∷ as_bytes s

abbrev pub replicate : ℕ → ℕ → List ℕ
replicate zero x = []
replicate (suc n) x = x ∷ replicate n x

-- What is used of alloy: keccak256, `U256::to_be_bytes`, `PrimitiveSignature::try_from` and
-- `recover_address_from_prehash`.
pub record Crypto : Type 0 where
  pub keccak256 : List ℕ → List ℕ
  pub to_be_bytes : ℕ → List ℕ
  pub parse_signature : List ℕ → Option (List ℕ)
  pub recover_address : List ℕ → List ℕ → Option (List ℕ)

pub data SignatureError : Type 0 where
  bad_length : ℕ → SignatureError
  invalid_signature recovery_failed : SignatureError

-- The calls of `extend_from_slice` on an empty buffer.
pub extend : List (List ℕ) → List ℕ
extend [] = []
extend (x ∷ xs) = x ++ extend xs

-- `order.side as u8`
abbrev pub side_byte : OrderSide → ℕ
side_byte buy = 0
side_byte sell = 1

module _ (crypto : Crypto) where
  pub compute_domain_separator : ℕ → List ℕ → List ℕ
  unfolding extend
  compute_domain_separator chain_id verifying_contract = crypto.keccak256 (
      extend (
        crypto.keccak256 (
          as_bytes
            "EIP712Domain(string name,string version,uint256 chainId,address verifyingContract)")
        ∷ crypto.keccak256 (as_bytes "Omniscient Exchange")
        ∷ crypto.keccak256 (as_bytes "1")
        ∷ crypto.to_be_bytes chain_id
        ∷ replicate 12 0
        ∷ verifying_contract
        ∷ []))

  -- The slices of the encoding of an order, and the encoding.
  pub order_slices : Order → List (List ℕ)
  order_slices o =
      crypto.keccak256 (
        as_bytes
          "Order(bytes32 salt,address maker,uint256 positionId,uint256 price,uint256 amount,uint8 side,uint256 nonce,uint256 deadline)")
      ∷ o.salt.bytes
      ∷ replicate 12 0
      ∷ o.maker.bytes
      ∷ crypto.to_be_bytes o.position_id
      ∷ crypto.to_be_bytes o.price
      ∷ crypto.to_be_bytes o.amount
      ∷ crypto.to_be_bytes (side_byte o.side)
      ∷ crypto.to_be_bytes o.nonce
      ∷ crypto.to_be_bytes o.deadline
      ∷ []

  pub encode_order : Order → List ℕ
  encode_order o = extend (order_slices o)

  pub hash_order : Order → List ℕ
  hash_order o = crypto.keccak256 (encode_order o)

  pub eip712_signing_hash : List ℕ → List ℕ → List ℕ
  eip712_signing_hash domain_separator struct_hash =
      crypto.keccak256 (0x19 ∷ 0x01 ∷ domain_separator ++ struct_hash)

  -- What is signed for an order.
  pub order_digest : Order → ℕ → List ℕ → List ℕ
  order_digest o chain_id verifying_contract =
      eip712_signing_hash (compute_domain_separator chain_id verifying_contract) (hash_order o)

  unfoldable pub verify_order_signature :
      Order → List ℕ → ℕ → List ℕ → Result (List ℕ) SignatureError
  verify_order_signature o signature chain_id verifying_contract =
      if length signature == 65
      then (elim (crypto.parse_signature signature) [
        | none ↦ err invalid_signature
        | some sig ↦
            elim (crypto.recover_address sig (order_digest o chain_id verifying_contract)) [
              | none ↦ err recovery_failed
              | some recovered ↦ ok recovered
            ]
      ])
      else err (bad_length (length signature))
