-- ===== src/Gateway/Api.antt =====
-- gateway/src/api.rs: the handlers of the requests, with their errors, behind the parsing of JSON.
pub mod Errors
pub mod Reconcile
pub mod Requests
use Prim.Native.String.{String}
use omniscient.Prelude.{
  ℕ, ◌-◌, ◌==◌, Bool, true, false, ◌&&◌, ◌||◌, Option, none, some, List, [], ◌∷◌, ◌++◌, ltb,
  if◌then◌else◌,
}
use omniscient.Prelude.Result.{Result, ok, err}
use omniscient.Shared.Domain.{Address, MarketId, OrderId, bytes_eq}
use omniscient.Shared.Hex.{Text, HexCodec, address_from_hex, market_id_from_hex, address_to_text}
use omniscient.Shared.Order.{SignedOrder, AssetType, usdc, ctf}
use omniscient.Shared.Signing.{
  as_bytes, Crypto, SignatureError, bad_length, invalid_signature, recovery_failed,
}
use omniscient.Store.{
  Db, Error, sqlx, insufficient_balance, invalid_row, domain, execute, transaction, ◌>>=◌, ◌>>◌,
}
use omniscient.Indexer.{i64_limit}
use omniscient.Indexer.Custody.{ensure_user_row, credit_usdc}
use omniscient.Gateway.Infra.{i64_or_zero}
use omniscient.Gateway.Service.{
  OrderError, order_expired, price_out_of_range, amount_zero, maker_mismatch, queue_full,
  signature_error, ensure_user_error, collateral_error, insert_order_error, insert_hold_error,
  cancel_order_error, Settings, State, accept_order, cancel_by_id,
}

pub data AppError : Type 0 where
  bad_request unauthorized internal : AppError

-- The texts that come from elsewhere: of the database, of the channel, of the crates' errors, and
-- numbers.
pub record Messages : Type 0 where
  pub sqlx_text : Text
  pub channel_text : Text
  pub invalid_detail : Text
  pub recovery_detail : Text
  pub row_text : Text
  pub decimal : ℕ → Text

unfoldable pub starts_with : Text → Text → Bool
starts_with [] s = true
starts_with (c ∷ cs) [] = false
starts_with (c ∷ cs) (d ∷ s) = c == d && starts_with cs s

-- `str::contains`
unfoldable pub contains : Text → Text → Bool
contains p [] = starts_with p []
contains p (c ∷ s) = starts_with p (c ∷ s) || contains p s

abbrev pub asset_text : AssetType → Text
asset_text usdc = as_bytes "usdc"
asset_text ctf = as_bytes "ctf"

-- The texts of the errors; `who` is the text of the maker.
abbrev pub error_text : Messages → Text → Error → Text
error_text m who sqlx = as_bytes "database error: " ++ m.sqlx_text
error_text m who (insufficient_balance asset) =
    as_bytes "domain error: insufficient balance for "
    ++ (who ++ (as_bytes " " ++ asset_text asset))
error_text m who invalid_row = as_bytes "domain error: " ++ m.row_text
error_text m who (domain f) = as_bytes "domain error: " ++ m.row_text

abbrev pub signature_text : Messages → SignatureError → Text
signature_text m (bad_length n) =
    as_bytes "domain error: signature must be 65 bytes, got " ++ m.decimal n
signature_text m invalid_signature =
    as_bytes "domain error: invalid signature: " ++ m.invalid_detail
signature_text m recovery_failed =
    as_bytes "domain error: signature recovery failed: " ++ m.recovery_detail

unfoldable pub message : Messages → Text → OrderError → Text
message m who order_expired = as_bytes "order expired"
message m who price_out_of_range = as_bytes "price out of range (0, 1e6]"
message m who amount_zero = as_bytes "amount must be > 0"
message m who maker_mismatch = as_bytes "signature does not match maker"
message m who queue_full = as_bytes "matcher queue full: " ++ m.channel_text
message m who (signature_error e) = as_bytes "signature verification: " ++ signature_text m e
message m who (ensure_user_error e) = as_bytes "ensure_user: " ++ error_text m who e
message m who (collateral_error e) = as_bytes "collateral: " ++ error_text m who e
message m who (insert_order_error e) = as_bytes "insert_order: " ++ error_text m who e
message m who (insert_hold_error e) = as_bytes "insert_hold: " ++ error_text m who e
message m who (cancel_order_error e) = as_bytes "cancel_order_db: " ++ error_text m who e

unfoldable pub from_order_error : Text → AppError
from_order_error e =
    if contains (as_bytes "insufficient") e
      || contains (as_bytes "expired") e
      || contains (as_bytes "invalid") e
    then bad_request
    else internal

abbrev pub status_code : AppError → ℕ
status_code bad_request = 400
status_code unauthorized = 401
status_code internal = 500

unfoldable pub post_orders :
    HexCodec
    → Crypto
    → Settings
    → Messages
    → ℕ
    → OrderId
    → Text
    → SignedOrder
    → State
    → Result OrderId AppError × State
post_orders hex crypto settings m now order_id market_id signed s =
    elim (market_id_from_hex hex market_id) [
      | err e ↦ (err bad_request, s)
      | ok market ↦
          let r = accept_order crypto settings now order_id signed market s in
          elim r.0 [
            | ok id ↦ (ok id, r.1)
            | err e ↦
                (err (from_order_error (message m (address_to_text hex signed.order.maker) e)), r.1)
          ]
    ]

-- `parse_uuid` and `parse_u256` are the crates' parsers.
unfoldable pub post_cancel_order :
    (Text → Option OrderId)
    → (Text → Option ℕ)
    → Messages
    → Text
    → Text
    → State
    → Result (Unit {0}) AppError × State
post_cancel_order parse_uuid parse_u256 m order_id position_id s = elim (parse_uuid order_id) [
  | none ↦ (err bad_request, s)
  | some id ↦ elim (parse_u256 position_id) [
    | none ↦ (err bad_request, s)
    | some position ↦
        let r = cancel_by_id id position s in
        elim r.0 [ ok u ↦ (ok tt, r.1) | err e ↦ (err (from_order_error (message m [] e)), r.1) ]
  ]
]

pub record ReconcilePayload : Type 0 where
  pub user : Text
  pub deposit : ℕ
  pub block_number : ℕ

-- `unwrap_or("")`
abbrev pub header_or_empty : Option Text → Text
header_or_empty none = []
header_or_empty (some t) = t

-- The secret of the settings, the header of the request if it is a text, and the body.
unfoldable pub post_reconcile :
    HexCodec → Text → Option Text → ReconcilePayload → Db → Result (Unit {0}) AppError × Db
post_reconcile hex gateway_internal_secret header body db =
    if bytes_eq (header_or_empty header) gateway_internal_secret
    then (elim (address_from_hex hex body.user) [
      | err e ↦ (err bad_request, db)
      | ok user ↦
          let deposit = if ltb body.deposit i64_limit then body.deposit else i64_limit - 1 in
          let r =
            transaction
              (execute (ensure_user_row user.bytes)
                >> execute (credit_usdc user.bytes deposit (i64_or_zero body.block_number)))
              db in
          elim r.0 [ ok u ↦ (ok tt, r.1) | err e ↦ (err internal, r.1) ]
    ])
    else (err unauthorized, db)

-- The status, of whether the database and the broker answer.
unfoldable pub get_health : Bool → Bool → ℕ
get_health db_ok kafka_ok = if db_ok && kafka_ok then 200 else 503
