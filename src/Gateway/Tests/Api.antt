-- ===== src/Gateway/Tests/Api.antt =====
-- The answers to orders.
use omniscient.Prelude.{◌≡◌, refl, [], ◌∷◌, ◌+◌, ◌%◌, arith}
use omniscient.Shared.Hex.{to_text, from_hex, market_id_from_hex, is_whitespace, strip_prefix, len}
use omniscient.Shared.Order.{SignedOrder}
use omniscient.Shared.Signing.{as_bytes, replicate, verify_order_signature}
use omniscient.Shared.Tests.Codec.{codec, decode}
use omniscient.Shared.Tests.Signing.{crypto}
use omniscient.Gateway.Service.{accept_order, validate_signed_order}
use omniscient.Gateway.Api.{Messages, post_orders, contains, starts_with}
use omniscient.Gateway.Api.Errors.{IsPlain, order_status, post_orders-status}
use omniscient.Gateway.Tests.Sample.{market}
use omniscient.Gateway.Tests.Service.{settings, signed, start}

abbrev pub messages : Messages
messages = record {
  sqlx_text = as_bytes "pool timed out";
  channel_text = as_bytes "no available capacity";
  invalid_detail = as_bytes "parity";
  recovery_detail = as_bytes "point at infinity";
  row_text = as_bytes "length";
  decimal = λ n. (b'0' + n % 10) ∷ [];
}

messages-IsPlain : IsPlain messages
unfolding contains starts_with
messages-IsPlain = record {
  sqlx_plain = refl;
  channel_plain = refl;
  recovery_plain = refl;
  row_plain = refl;
  decimal_plain = λ n. ground arith;
}

-- A signature of 64 bytes is answered by 500.
abbrev short : SignedOrder
short = record signed { signature = replicate 64 0 }

post_orders-status_example :
    order_status
      (post_orders codec crypto settings messages 100 6 (to_text codec market.bytes) short start).0
    ≡ 500
unfolding market_id_from_hex from_hex accept_order validate_signed_order verify_order_signature
    is_whitespace strip_prefix len to_text decode
post_orders-status_example =
    post_orders-status codec crypto settings messages 100 6 (to_text codec market.bytes) short start
      messages-IsPlain
