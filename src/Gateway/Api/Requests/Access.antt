-- ===== src/Gateway/Api/Requests/Access.antt =====
-- What a request must be to change anything.
use omniscient.Prelude.{
  ℕ, ◌≡◌, refl, Bool, true, false, Option, none, some, List, [], ◌∷◌, not, is_empty, arith,
}
use omniscient.Prelude.Result.{ok}
use omniscient.Shared.Domain.{MarketId, OrderId, bytes_eq_iff}
use omniscient.Shared.Hex.{Text, market_id_from_hex}
use omniscient.Shared.Signing.{Crypto, as_bytes}
use omniscient.Shared.Json.{Value}
use omniscient.Shared.Wire.{Formats}
use omniscient.Gateway.Service.{Settings, State, accept_order, cancel_by_id}
use omniscient.Gateway.Service.Accept.{IsSigned}
use omniscient.Gateway.Api.{ReconcilePayload, header_or_empty, post_reconcile}
use omniscient.Gateway.Api.Requests.{
  SubmitOrderRequest, deserialize_submit, deserialize_cancel, deserialize_reconcile, Body, json,
  unreadable, Request, Route, Answer, status, route_of, with_json, to_orders, to_cancel,
  to_reconcile, to_health, to_ws, post,
}

-- The places of the three handlers that change anything.
abbrev pub orders_path : List Text
orders_path = as_bytes "orders" ∷ []

abbrev pub cancel_path : Text → List Text
cancel_path order_id = as_bytes "orders" ∷ order_id ∷ as_bytes "cancel" ∷ []

abbrev pub reconcile_path : List Text
reconcile_path = as_bytes "internal" ∷ as_bytes "reconcile" ∷ []

module _ (f : Formats) (crypto : Crypto) (settings : Settings) (secret : Text) where
  -- A POST request that takes the state `s` to `s'`: an order that its maker has signed, and that has
  -- not expired and has its price and amount in range; a cancellation, by anyone; or a report with
  -- the secret.
  pub data Changes (q : Request) (s s' : State) : Type 0 where
    submits :
        (v : Value) (b : SubmitOrderRequest) (market : MarketId)
        → q.method ≡ post
        → q.path ≡ orders_path
        → q.body ≡ json v
        → deserialize_submit f v ≡ some b
        → market_id_from_hex f.hex b.market_id ≡ ok market
        → IsSigned crypto settings q.now b.signed_order
        → s' ≡ (accept_order crypto settings q.now q.order_id b.signed_order market s).1
        → Changes q s s'
    cancels :
        (v : Value) (order_text position_text : Text) (id : OrderId) (position : ℕ)
        → q.method ≡ post
        → q.path ≡ cancel_path order_text
        → q.body ≡ json v
        → deserialize_cancel v ≡ some position_text
        → f.parse_uuid order_text ≡ some id
        → f.parse_u256 position_text ≡ some position
        → is_empty order_text ≡ false
        → s' ≡ (cancel_by_id id position s).1
        → Changes q s s'
    reports :
        (v : Value) (b : ReconcilePayload)
        → q.method ≡ post
        → q.path ≡ reconcile_path
        → q.body ≡ json v
        → deserialize_reconcile v ≡ some b
        → header_or_empty q.header ≡ secret
        → s' ≡ record s { db = (post_reconcile f.hex secret q.header b s.db).1 }
        → Changes q s s'

abbrev pub path_of : Route → List Text
path_of to_orders = orders_path
path_of (to_cancel order_id) = cancel_path order_id
path_of to_reconcile = reconcile_path
path_of to_health = as_bytes "health" ∷ []
path_of to_ws = as_bytes "ws" ∷ []

-- The id in a path is not empty.
abbrev pub named : Route → Bool
named (to_cancel order_id) = not (is_empty order_id)
named to_orders = true
named to_reconcile = true
named to_health = true
named to_ws = true

pub route_of-path_of :
    (path : List Text) (r : Route) → route_of path ≡ some r → (path ≡ path_of r) × (named r ≡ true)
unfolding route_of
route_of-path_of [] r h = cc
route_of-path_of (a ∷ []) r h = ground (
  arith,
  bytes_eq_iff a (as_bytes "orders"),
  bytes_eq_iff a (as_bytes "health"),
  bytes_eq_iff a (as_bytes "ws"),
)
route_of-path_of (a ∷ (b ∷ [])) r h =
    ground (arith, bytes_eq_iff a (as_bytes "internal"), bytes_eq_iff b (as_bytes "reconcile"))
route_of-path_of (a ∷ (b ∷ (c ∷ []))) r h =
    ground (arith, bytes_eq_iff a (as_bytes "orders"), bytes_eq_iff c (as_bytes "cancel"))
route_of-path_of (a ∷ (b ∷ (c ∷ (d ∷ ds)))) r h = cc

-- A property of the state that holds before, and after whatever is read, holds in the end.
pub with_json_keeps :
    {A : Type 0} (P : State → Type 0) (body : Body) (read : Value → Option A)
    (k : A → Answer × State) (s : State)
    → P s
    → ((v : Value) (a : A) → body ≡ json v → read v ≡ some a → P (k a).1)
    → P (with_json body read k s).1
with_json_keeps P (unreadable n) read k s h g = h
with_json_keeps {A = A} P (json v) read k s h g = by_read (read v) refl
  where
    by_read :
        (r : Option A)
        → read v ≡ r
        → P (elim r as (λ _. Answer × State) [ none ↦ (status 422, s) | some a ↦ k a ]).1
    by_read none e = h
    by_read (some a) e = g v a refl e
