-- ===== src/Gateway/Api/Requests/Refused.antt =====
-- The indexer's reconcile requests at the router.
use omniscient.Prelude.{◌≡◌, [], ◌∷◌, arith}
use omniscient.Prelude.Integers.{ℤ}
use omniscient.Shared.Domain.{bytes_eq}
use omniscient.Shared.Hex.{Text}
use omniscient.Shared.Signing.{Crypto, as_bytes}
use omniscient.Shared.Json.{Value, entries}
use omniscient.Shared.Wire.{Formats}
use omniscient.Indexer.Finalization.{Reconcile, payload_of}
use omniscient.Gateway.Service.{Settings, State}
use omniscient.Gateway.Api.{Messages}
use omniscient.Gateway.Api.Requests.{
  Request, post, json, status, deserialize_reconcile, route_of, answer_route, answer_reconcile,
  answer,
}

-- A POST request for /internal/reconcile with a body that the indexer writes is answered by 422 and
-- changes nothing, whatever the body's fields, the header and the state are.
pub answer-payload_of :
    (f : Formats) (crypto : Crypto) (settings : Settings) (secret : Text) (m : Messages)
    (deposit_value : ℤ → Value) (r : Reconcile) (q : Request) (s : State)
    → let q' = record q {
      method = post;
      path = as_bytes "internal" ∷ as_bytes "reconcile" ∷ [];
      body = json (payload_of f.hex deposit_value r);
    } in
      answer f crypto settings secret m q' s ≡ (status 422, s)
unfolding answer answer_route answer_reconcile route_of bytes_eq deserialize_reconcile payload_of
    entries
answer-payload_of f crypto settings secret m deposit_value r q s = ground arith
