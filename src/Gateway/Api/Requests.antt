-- ===== src/Gateway/Api/Requests.antt =====
-- gateway/src/api.rs: the router, and how the bodies of requests are read, before the handlers.
pub mod Refused
pub mod Access
pub mod Sound
pub mod Guarded
use omniscient.Prelude.{
  ℕ, ◌==◌, Bool, true, false, ◌&&◌, Option, none, some, List, [], ◌∷◌, is_empty, not, if◌then◌else◌,
}
use omniscient.Prelude.Result.{Result, ok, err}
use omniscient.Shared.Domain.{OrderId, bytes_eq}
use omniscient.Shared.Hex.{Text}
use omniscient.Shared.Order.{SignedOrder}
use omniscient.Shared.Signing.{Crypto, as_bytes}
use omniscient.Shared.Json.{Value, field_of, string_of, ◌>>=◌}
use omniscient.Shared.Wire.{Formats, deserialize_u64, deserialize_signed_order}
use omniscient.Gateway.Service.{Settings, State}
use omniscient.Gateway.Api.{
  AppError, Messages, ReconcilePayload, status_code, post_orders, post_cancel_order, post_reconcile,
  get_health,
}

pub record SubmitOrderRequest : Type 0 where
  pub market_id : Text
  pub signed_order : SignedOrder

-- The derived `Deserialize`, with the fields' names in camel case.
unfoldable pub deserialize_submit : Formats → Value → Option SubmitOrderRequest
deserialize_submit f v = do
  market_id ← field_of "marketId" 0 2 v >>= string_of
  signed_order ← field_of "signedOrder" 1 2 v >>= deserialize_signed_order f
  some (record { market_id = market_id; signed_order = signed_order })

unfoldable pub deserialize_cancel : Value → Option Text
deserialize_cancel v = field_of "positionId" 0 1 v >>= string_of

unfoldable pub deserialize_reconcile : Value → Option ReconcilePayload
deserialize_reconcile v = do
  user ← field_of "user" 0 3 v >>= string_of
  deposit ← field_of "deposit" 1 3 v >>= deserialize_u64
  block_number ← field_of "blockNumber" 2 3 v >>= deserialize_u64
  some (record { user = user; deposit = deposit; block_number = block_number })

-- What axum makes of a body: JSON, or the status that it answers a body that is none with.
pub data Body : Type 0 where
  json : Value → Body
  unreadable : ℕ → Body

pub data Method : Type 0 where
  get post other_method : Method

-- The parts of the path, the secret's header, and the body; and what the clock, the random id and the
-- checks of `get_health` give while the request is handled.
pub record Request : Type 0 where
  pub method : Method
  pub path : List Text
  pub header : Option Text
  pub body : Body
  pub now : ℕ
  pub order_id : OrderId
  pub db_ok : Bool
  pub kafka_ok : Bool

pub data Answer : Type 0 where
  status : ℕ → Answer
  upgrade : Answer

pub data Route : Type 0 where
  to_orders to_reconcile to_health to_ws : Route
  to_cancel : Text → Route

-- `router`
unfoldable pub route_of : List Text → Option Route
route_of [] = none
route_of (a ∷ []) =
    if bytes_eq a (as_bytes "orders")
    then some to_orders
    else if bytes_eq a (as_bytes "health")
    then some to_health
    else if bytes_eq a (as_bytes "ws")
    then some to_ws
    else none
route_of (a ∷ (b ∷ [])) =
    if bytes_eq a (as_bytes "internal") && bytes_eq b (as_bytes "reconcile")
    then some to_reconcile
    else none
route_of (a ∷ (b ∷ (c ∷ []))) =
    if bytes_eq a (as_bytes "orders") && (not (is_empty b) && bytes_eq c (as_bytes "cancel"))
    then some (to_cancel b)
    else none
route_of (a ∷ (b ∷ (c ∷ (d ∷ ds)))) = none

-- The status of a handler's result.
abbrev pub answer_status : {A : Type 0} → ℕ → Result A AppError → Answer
answer_status success (ok a) = status success
answer_status success (err e) = status (status_code e)

-- `Json`: 422 for JSON of another form.
abbrev pub with_json :
    {A : Type 0} → Body → (Value → Option A) → (A → Answer × State) → State → Answer × State
with_json (unreadable n) read k s = (status n, s)
with_json (json v) read k s = elim (read v) [ none ↦ (status 422, s) | some a ↦ k a ]

module _ (f : Formats) (crypto : Crypto) (settings : Settings) (secret : Text) (m : Messages) where
  unfoldable pub answer_orders : Request → State → Answer × State
  answer_orders q s =
      with_json q.body (deserialize_submit f)
        (λ b.
          let r =
            post_orders f.hex crypto settings m q.now q.order_id b.market_id b.signed_order s in
          (answer_status 202 r.0, r.1))
        s

  unfoldable pub answer_cancel : Text → Request → State → Answer × State
  answer_cancel order_id q s =
      with_json q.body deserialize_cancel
        (λ position_id.
          let r = post_cancel_order f.parse_uuid f.parse_u256 m order_id position_id s in
          (answer_status 200 r.0, r.1))
        s

  unfoldable pub answer_reconcile : Request → State → Answer × State
  answer_reconcile q s =
      with_json q.body deserialize_reconcile
        (λ b.
          let r = post_reconcile f.hex secret q.header b s.db in
          (answer_status 200 r.0, record s { db = r.1 }))
        s

  -- The methods of a path that has a handler: any other is answered by 405.
  unfoldable pub answer_route : Route → Request → State → Answer × State
  answer_route to_orders q s = elim q.method [
    | post ↦ answer_orders q s
    | get ↦ (status 405, s)
    | other_method ↦ (status 405, s)
  ]
  answer_route (to_cancel order_id) q s = elim q.method [
    | post ↦ answer_cancel order_id q s
    | get ↦ (status 405, s)
    | other_method ↦ (status 405, s)
  ]
  answer_route to_reconcile q s = elim q.method [
    | post ↦ answer_reconcile q s
    | get ↦ (status 405, s)
    | other_method ↦ (status 405, s)
  ]
  answer_route to_health q s = elim q.method [
    | get ↦ (status (get_health q.db_ok q.kafka_ok), s)
    | post ↦ (status 405, s)
    | other_method ↦ (status 405, s)
  ]
  answer_route to_ws q s = elim q.method [
    | get ↦ (upgrade, s)
    | post ↦ (status 405, s)
    | other_method ↦ (status 405, s)
  ]

  unfoldable pub answer : Request → State → Answer × State
  answer q s = elim (route_of q.path) [ none ↦ (status 404, s) | some r ↦ answer_route r q s ]
