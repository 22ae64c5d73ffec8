-- ===== src/Gateway/Tests/Requests.antt =====
-- Requests at the router.
use omniscient.Prelude.{◌≡◌, ◌⊎◌, true, none, some, [], ◌∷◌}
use omniscient.Prelude.Integers.{ℤ, pos}
use omniscient.Shared.Hex.{to_text}
use omniscient.Shared.Signing.{as_bytes}
use omniscient.Shared.Json.{Value, object, entry, no_fields, string}
use omniscient.Shared.Wire.{serialize_order}
use omniscient.Shared.Tests.Codec.{codec}
use omniscient.Shared.Tests.Signing.{crypto}
use omniscient.Shared.Tests.Wire.{formats}
use omniscient.Indexer.Finalization.{Reconcile, payload_of}
use omniscient.Gateway.Service.{State}
use omniscient.Gateway.Api.Requests.{Request, post, json, status, answer}
use omniscient.Gateway.Api.Requests.Refused.{answer-payload_of}
use omniscient.Gateway.Api.Requests.Access.{Changes}
use omniscient.Gateway.Api.Requests.Guarded.{answer-Changes}
use omniscient.Gateway.Tests.Sample.{addr, market}
use omniscient.Gateway.Tests.Service.{settings, signed, start}
use omniscient.Gateway.Tests.Api.{messages}
use omniscient.Gateway.Tests.System.{secret}

-- A client's order.
abbrev submission : Value
submission = object (
    entry (as_bytes "marketId") (string (to_text codec market.bytes)) (
      entry (as_bytes "signedOrder")
        (object (
          entry (as_bytes "order") (serialize_order formats signed.order)
            (entry (as_bytes "signature") (string (to_text codec signed.signature)) no_fields)))
        no_fields))

abbrev request : Request
request = record {
  method = post;
  path = as_bytes "orders" ∷ [];
  header = none;
  body = json submission;
  now = 100;
  order_id = 6;
  db_ok = true;
  kafka_ok = true;
}

answer-Changes_example :
    let s' = (answer formats crypto settings secret messages request start).1 in
    ((s' ≡ start) ⊎ Changes formats crypto settings secret request start s')
    × ((s'' : State) → Changes formats crypto settings secret request start s'' → s' ≡ s'')
answer-Changes_example = answer-Changes formats crypto settings secret messages request start

abbrev deposit : Reconcile
deposit = record { user = (addr 1).bytes; deposit = pos 8; block_number = 3 }

-- A BigDecimal is written as a text.
abbrev deposit_value : ℤ → Value
deposit_value d = string (b'8' ∷ [])

answer-payload_of_example :
    answer formats crypto settings secret messages
      (record request {
        path = as_bytes "internal" ∷ as_bytes "reconcile" ∷ [];
        header = some secret;
        body = json (payload_of codec deposit_value deposit);
      })
      start
    ≡ (status 422, start)
answer-payload_of_example =
    answer-payload_of formats crypto settings secret messages deposit_value deposit
      (record request { header = some secret }) start
