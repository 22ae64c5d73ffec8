-- ===== src/Gateway/Api/Errors.antt =====
-- Which errors of an order the client is told to be its own.
use omniscient.Prelude.{ℕ, ◌≡◌, refl, ◌∙◌, Bool, true, not, ◌||◌, arith}
use omniscient.Prelude.Result.{Result, ok, err}
use omniscient.Shared.Domain.{OrderId, MarketId}
use omniscient.Shared.Hex.{Text, HexCodec, DomainError, market_id_from_hex, address_to_text}
use omniscient.Shared.Order.{SignedOrder}
use omniscient.Shared.Signing.{as_bytes, Crypto, bad_length, invalid_signature, recovery_failed}
use omniscient.Store.{Error, sqlx, insufficient_balance, invalid_row, domain}
use omniscient.Gateway.Service.{
  OrderError, order_expired, price_out_of_range, amount_zero, maker_mismatch, queue_full,
  signature_error, ensure_user_error, collateral_error, insert_order_error, insert_hold_error,
  cancel_order_error, Settings, State, accept_order,
}
use omniscient.Gateway.Api.{
  AppError, Messages, starts_with, contains, message, error_text, from_order_error, status_code,
  post_orders,
}

-- The status of an error.
abbrev pub status_of : Messages → Text → OrderError → ℕ
status_of m who e = status_code (from_order_error (message m who e))

-- The errors of the client: an order that has expired, a balance that does not suffice, or a
-- signature of 65 bytes that is none.
abbrev pub database_status : Error → ℕ
database_status sqlx = 500
database_status (insufficient_balance asset) = 400
database_status invalid_row = 500
database_status (domain f) = 500

abbrev pub expected_status : OrderError → ℕ
expected_status order_expired = 400
expected_status price_out_of_range = 500
expected_status amount_zero = 500
expected_status maker_mismatch = 500
expected_status queue_full = 500
expected_status (signature_error (bad_length n)) = 500
expected_status (signature_error invalid_signature) = 400
expected_status (signature_error recovery_failed) = 500
expected_status (ensure_user_error e) = database_status e
expected_status (collateral_error e) = database_status e
expected_status (insert_order_error e) = database_status e
expected_status (insert_hold_error e) = database_status e
expected_status (cancel_order_error e) = database_status e

-- A text with none of the three words.
abbrev pub is_plain : Text → Bool
is_plain t = not (
    contains (as_bytes "insufficient") t
    || contains (as_bytes "expired") t
    || contains (as_bytes "invalid") t)

pub record IsPlain (m : Messages) : Type 0 where
  pub sqlx_plain : is_plain m.sqlx_text ≡ true
  pub channel_plain : is_plain m.channel_text ≡ true
  pub recovery_plain : is_plain m.recovery_detail ≡ true
  pub row_plain : is_plain m.row_text ≡ true
  pub decimal_plain : (n : ℕ) → is_plain (m.decimal n) ≡ true

module _ (m : Messages) (who : Text) (plain : IsPlain m) where
  -- The texts in front of a database error have none of the words.
  error_text-status :
      (e : Error) → status_code (from_order_error (error_text m who e)) ≡ database_status e
  unfolding from_order_error contains starts_with
  error_text-status sqlx = let p = plain.sqlx_plain in ground arith
  error_text-status (insufficient_balance asset) = refl
  error_text-status invalid_row = let p = plain.row_plain in ground arith
  error_text-status (domain f) = let p = plain.row_plain in ground arith

  status_of-expected_status : (e : OrderError) → status_of m who e ≡ expected_status e
  unfolding from_order_error message contains starts_with
  status_of-expected_status order_expired = refl
  status_of-expected_status price_out_of_range = refl
  status_of-expected_status amount_zero = refl
  status_of-expected_status maker_mismatch = refl
  status_of-expected_status queue_full = let p = plain.channel_plain in ground arith
  status_of-expected_status (signature_error (bad_length n)) =
      let p = plain.decimal_plain n in ground arith
  status_of-expected_status (signature_error invalid_signature) = ground arith
  status_of-expected_status (signature_error recovery_failed) =
      let p = plain.recovery_plain in ground arith
  status_of-expected_status (ensure_user_error e) = error_text-status e
  status_of-expected_status (collateral_error e) = error_text-status e
  status_of-expected_status (insert_order_error e) = error_text-status e
  status_of-expected_status (insert_hold_error e) = error_text-status e
  status_of-expected_status (cancel_order_error e) = error_text-status e

-- The status of an answer to an order.
abbrev pub order_status : {A : Type 0} → Result A AppError → ℕ
order_status (ok a) = 202
order_status (err e) = status_code e

-- The status of what accepting an order gave.
abbrev pub accept_status : Result OrderId OrderError → ℕ
accept_status (ok id) = 202
accept_status (err e) = expected_status e

module _ (hex : HexCodec) (crypto : Crypto) (settings : Settings) (m : Messages) (now : ℕ)
    (order_id : OrderId) (market_id : Text) (signed : SignedOrder) (s : State) where
  abbrev answered : Result OrderId AppError
  answered = (post_orders hex crypto settings m now order_id market_id signed s).0

  abbrev accepted : MarketId → Result OrderId OrderError
  accepted market = (accept_order crypto settings now order_id signed market s).0

  answered-bad :
      (e : DomainError) → market_id_from_hex hex market_id ≡ err e → order_status answered ≡ 400
  unfolding post_orders
  answered-bad e h = ground arith

  answered-ok :
      (market : MarketId) (id : OrderId)
      → market_id_from_hex hex market_id ≡ ok market
      → accepted market ≡ ok id
      → order_status answered ≡ 202
  unfolding post_orders
  answered-ok market id h k = ground arith

  answered-err :
      (market : MarketId) (e : OrderError)
      → market_id_from_hex hex market_id ≡ ok market
      → accepted market ≡ err e
      → order_status answered ≡ status_of m (address_to_text hex signed.order.maker) e
  unfolding post_orders
  answered-err market e h k = ground arith

  -- If the texts that come from elsewhere (of the database, the channel, the row, the recovery and
  -- of numbers) have none of the words insufficient, expired and invalid: an order is answered by
  -- 400 if its market id cannot be read, it has expired, the balance does not suffice, or its
  -- signature has 65 bytes and cannot be parsed; by 202 if it is accepted; and by 500 for every
  -- other error, also for a price or an amount out of range and for a signature of another length,
  -- without a signer or by another than the maker.
  pub post_orders-status :
      IsPlain m
      → order_status (post_orders hex crypto settings m now order_id market_id signed s).0
        ≡ (elim (market_id_from_hex hex market_id) as (λ _. ℕ) [
          | err e ↦ 400
          | ok market ↦ accept_status (accept_order crypto settings now order_id signed market s).0
        ])
  post_orders-status plain = by_market (market_id_from_hex hex market_id) refl
    where
      by_accepted :
          (market : MarketId) (r : Result OrderId OrderError)
          → market_id_from_hex hex market_id ≡ ok market
          → accepted market ≡ r
          → order_status answered ≡ accept_status r
      by_accepted market (ok id) h k = answered-ok market id h k
      by_accepted market (err e) h k =
          answered-err market e h k
          ∙ status_of-expected_status m (address_to_text hex signed.order.maker) plain e

      by_market :
          (r : Result MarketId DomainError)
          → market_id_from_hex hex market_id ≡ r
          → order_status answered
            ≡ (elim r as (λ _. ℕ) [ err e ↦ 400 | ok market ↦ accept_status (accepted market) ])
      by_market (err e) h = answered-bad e h
      by_market (ok market) h = by_accepted market (accepted market) h refl
