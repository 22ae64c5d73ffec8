-- ===== src/Gateway/System/Requests.antt =====
-- Every request that the router takes is a step of the system, or changes nothing.
use omniscient.Prelude.{◌<◌, ◌≡◌, ◌⊎◌, inl, inr, sym, subst, Option, none, some, arith, u64_mod}
use omniscient.Shared.Hex.{Text}
use omniscient.Shared.Signing.{Crypto}
use omniscient.Shared.Json.{Value, field_of, string_of, ◌>>=◌}
use omniscient.Shared.Wire.{Formats, deserialize_signed_order}
use omniscient.Shared.Wire.Laws.{deserialize_signed_order-amount}
use omniscient.Gateway.Service.{Settings, State}
use omniscient.Gateway.Api.{Messages}
use omniscient.Gateway.Api.Requests.{SubmitOrderRequest, deserialize_submit, Request, answer}
use omniscient.Gateway.Api.Requests.Access.{Changes, submits, cancels, reports}
use omniscient.Gateway.Api.Requests.Guarded.{answer-Changes}
use omniscient.Gateway.System.{World, Step, submit, cancel, reconcile}

deserialize_submit-amount :
    (f : Formats) (v : Value) (r : SubmitOrderRequest)
    → deserialize_submit f v ≡ some r
    → r.signed_order.order.amount < u64_mod
unfolding deserialize_submit
deserialize_submit-amount f v r e =
    by_parts (field_of "marketId" 0 2 v >>= string_of) (field_of "signedOrder" 1 2 v) e
  where
    by_parts :
        (t : Option Text) (o : Option Value)
        → (do
          market_id ← t
          signed_order ← o >>= deserialize_signed_order f
          some (record { market_id = market_id; signed_order = signed_order }))
          ≡ some r
        → r.signed_order.order.amount < u64_mod
    by_parts none o e = cc
    by_parts (some t) none e = cc
    by_parts (some t) (some u) e = deserialize_signed_order-amount f u r.signed_order (ground arith)

-- Whatever the method, the path, the header and the body of a request are: the router changes
-- nothing, or makes a step of the system.
pub answer-Step :
    (f : Formats) (crypto : Crypto) (settings : Settings) (secret : Text) (m : Messages) (w : World)
    (q : Request)
    → let s = (answer f crypto settings secret m q w.service).1 in
      (s ≡ w.service) ⊎ Step f.hex crypto settings secret w (record w { service = s })
answer-Step f crypto settings secret m w q =
    by_change (answer f crypto settings secret m q w.service).1
      (answer-Changes f crypto settings secret m q w.service).0
  where
    by_change :
        (s : State)
        → (s ≡ w.service) ⊎ Changes f crypto settings secret q w.service s
        → (s ≡ w.service) ⊎ Step f.hex crypto settings secret w (record w { service = s })
    by_change s (inl e) = inl e
    by_change s (inr (submits v b market hm hp hb hd h valid e)) = inr (
        subst (λ (s : State). Step f.hex crypto settings secret w (record w { service = s }))
          (sym e)
          (submit w q.now q.order_id b.signed_order market (deserialize_submit-amount f v b hd)))
    by_change s (inr (cancels v a p id position hm hp hb hd ha hn he e)) = inr (
        subst (λ (s : State). Step f.hex crypto settings secret w (record w { service = s }))
          (sym e) (cancel w id position))
    by_change s (inr (reports v b hm hp hb hd h e)) = inr (
        subst (λ (s : State). Step f.hex crypto settings secret w (record w { service = s }))
          (sym e) (reconcile w q.header b))
