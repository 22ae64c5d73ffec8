-- ===== src/Shared/Wire.antt =====
-- shared/src/domain.rs: how the types are written to and read from JSON values.
pub mod Laws
pub mod Trip
use Prim.Native.String.{String}
use omniscient.Prelude.{
  ℕ, zero, suc, ◌-◌, ◌==◌, Option, none, some, List, [], ◌∷◌, ◌++◌, length, ltb, if◌then◌else◌,
  u64_mod,
}
use omniscient.Prelude.Result.{Result, ok, err}
use omniscient.Shared.Json.{
  Value, string, number, array, object, other, Values, nil, cons, Fields, no_fields, entry, ◌>>=◌,
  string_of, number_below, entries, only, count, at, field_of,
}
use omniscient.Shared.Domain.{Address, MarketId, OrderId, OrderSide, buy, sell, bytes_eq}
use omniscient.Shared.Order.{Bytes32, Order, SignedOrder}
use omniscient.Shared.Hex.{
  Text, HexCodec, BatchId, DomainError, strip_prefix, unwrap_or, zero_x, address_from_hex,
  market_id_from_hex, bytes32_from_hex, batch_id_from_hex, address_to_text, market_id_to_text,
  bytes32_to_text, batch_id_to_text,
}
use omniscient.Shared.Signing.{as_bytes, replicate, side_byte}

pub record Price : Type 0 where
  pub value : ℕ

pub record Quantity : Type 0 where
  pub value : ℕ

-- What is used of the crates: `hex::decode`, alloy's U256 (`from_be_bytes`, `FromStr`, `Serialize`),
-- and uuid's texts.
pub record Formats : Type 0 where
  pub hex : HexCodec
  pub decode : Text → Option (List ℕ)
  pub from_be_bytes : List ℕ → ℕ
  pub parse_u256 : Text → Option ℕ
  pub u256_text : ℕ → Text
  pub parse_uuid : Text → Option OrderId
  pub uuid_text : OrderId → Text

abbrev pub to_option : {A : Type 0} → Result A DomainError → Option A
to_option (ok a) = some a
to_option (err e) = none

unfoldable pub deserialize_side : Value → Option OrderSide
deserialize_side v = do
  n ← number_below 256 v
  if n == 0 then some buy else if n == 1 then some sell else none

abbrev pub deserialize_u64 : Value → Option ℕ
deserialize_u64 v = number_below u64_mod v

abbrev pub deserialize_price : Value → Option Price
deserialize_price v = do n ← deserialize_u64 v; some (record { value = n })

abbrev pub deserialize_quantity : Value → Option Quantity
deserialize_quantity v = do n ← deserialize_u64 v; some (record { value = n })

abbrev pub serialize_price : Price → Value
serialize_price p = number p.value

abbrev pub serialize_quantity : Quantity → Value
serialize_quantity q = number q.value

abbrev pub serialize_side : OrderSide → Value
serialize_side s = number (side_byte s)

-- `or_else`
abbrev pub or_else : Option Text → Option Text → Option Text
or_else none o = o
or_else (some s) o = some s

module _ (f : Formats) where
  pub deserialize_address : Value → Option Address
  deserialize_address v = do s ← string_of v; to_option (address_from_hex f.hex s)

  abbrev pub deserialize_market_id : Value → Option MarketId
  deserialize_market_id v = do s ← string_of v; to_option (market_id_from_hex f.hex s)

  pub deserialize_bytes32 : Value → Option Bytes32
  deserialize_bytes32 v = do s ← string_of v; to_option (bytes32_from_hex f.hex s)

  abbrev pub deserialize_batch_id : Value → Option BatchId
  deserialize_batch_id v = do s ← string_of v; to_option (batch_id_from_hex f.hex s)

  abbrev pub deserialize_order_id : Value → Option OrderId
  deserialize_order_id v = do s ← string_of v; f.parse_uuid s

  abbrev pub serialize_address : Address → Value
  serialize_address a = string (address_to_text f.hex a)

  abbrev pub serialize_market_id : MarketId → Value
  serialize_market_id a = string (market_id_to_text f.hex a)

  abbrev pub serialize_bytes32 : Bytes32 → Value
  serialize_bytes32 a = string (bytes32_to_text f.hex a)

  abbrev pub serialize_batch_id : BatchId → Value
  serialize_batch_id a = string (batch_id_to_text f.hex a)

  abbrev pub serialize_order_id : OrderId → Value
  serialize_order_id id = string (f.uuid_text id)

  -- The bytes of the digits behind the prefix, filled up to 32 from the left.
  pub number_of_hex : Text → Option ℕ
  number_of_hex digits = do
    bytes ← f.decode digits
    if ltb 32 (length bytes)
        then none
        else some (f.from_be_bytes (replicate (32 - length bytes) 0 ++ bytes))

  pub u256_of_text : Text → Option ℕ
  u256_of_text s = elim (or_else (strip_prefix zero_x s) (strip_prefix (b'0' ∷ b'X' ∷ []) s)) [
    | some digits ↦ number_of_hex digits
    | none ↦ f.parse_u256 s
  ]

  unfoldable pub deserialize_u256 : Value → Option ℕ
  deserialize_u256 v = do s ← string_of v; u256_of_text s

  unfoldable pub deserialize_hex_bytes : Value → Option (List ℕ)
  deserialize_hex_bytes v = do s ← string_of v; f.decode (unwrap_or (strip_prefix zero_x s) s)

  pub deserialize_order : Value → Option Order
  deserialize_order v = do
    salt ← field_of "salt" 0 8 v >>= deserialize_bytes32
    maker ← field_of "maker" 1 8 v >>= deserialize_address
    position_id ← field_of "position_id" 2 8 v >>= deserialize_u256
    price ← field_of "price" 3 8 v >>= deserialize_u64
    amount ← field_of "amount" 4 8 v >>= deserialize_u64
    side ← field_of "side" 5 8 v >>= deserialize_side
    nonce ← field_of "nonce" 6 8 v >>= deserialize_u64
    deadline ← field_of "deadline" 7 8 v >>= deserialize_u64
    some (record {
      salt = salt;
      maker = maker;
      position_id = position_id;
      price = price;
      amount = amount;
      side = side;
      nonce = nonce;
      deadline = deadline;
    })

  pub deserialize_signed_order : Value → Option SignedOrder
  deserialize_signed_order v = do
    order ← field_of "order" 0 2 v >>= deserialize_order
    signature ← field_of "signature" 1 2 v >>= deserialize_hex_bytes
    some (record { order = order; signature = signature })

  -- The derived `Serialize`: a sequence of bytes is an array of numbers.
  abbrev pub number_values : List ℕ → Values
  number_values [] = nil
  number_values (b ∷ bs) = cons (number b) (number_values bs)

  pub serialize_order : Order → Value
  serialize_order o = object (
      entry (as_bytes "salt") (serialize_bytes32 o.salt) (
        entry (as_bytes "maker") (serialize_address o.maker) (
          entry (as_bytes "position_id") (string (f.u256_text o.position_id)) (
            entry (as_bytes "price") (number o.price) (
              entry (as_bytes "amount") (number o.amount) (
                entry (as_bytes "side") (serialize_side o.side) (
                  entry (as_bytes "nonce") (number o.nonce)
                    (entry (as_bytes "deadline") (number o.deadline) no_fields))))))))

  pub serialize_signed_order : SignedOrder → Value
  serialize_signed_order s = object (
      entry (as_bytes "order") (serialize_order s.order)
        (entry (as_bytes "signature") (array (number_values s.signature)) no_fields))
