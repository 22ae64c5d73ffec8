-- ===== src/Gateway/Api/Requests/Guarded.antt =====
-- The router changes nothing but by the requests that it should, and makes their changes.
use omniscient.Prelude.{ℕ, ◌≡◌, ◌⊎◌, refl, sym, false, ap, ◌∙◌, some, is_empty, arith}
use omniscient.Prelude.Result.{ok}
use omniscient.Shared.Domain.{MarketId, OrderId, bytes_eq}
use omniscient.Shared.Hex.{Text, market_id_from_hex}
use omniscient.Shared.Signing.{Crypto}
use omniscient.Shared.Json.{Value}
use omniscient.Shared.Wire.{Formats}
use omniscient.Gateway.Service.{Settings, State, accept_order, cancel_by_id}
use omniscient.Gateway.Api.{Messages, ReconcilePayload, post_reconcile}
use omniscient.Gateway.Api.Requests.{
  SubmitOrderRequest, deserialize_submit, deserialize_cancel, deserialize_reconcile, json, Request,
  route_of, answer_orders, answer_cancel, answer_reconcile, answer_route, answer, to_orders,
  to_cancel, to_reconcile, post,
}
use omniscient.Gateway.Api.Requests.Access.{
  orders_path, cancel_path, reconcile_path, Changes, submits, cancels, reports,
}
use omniscient.Gateway.Api.Requests.Sound.{post_orders-ok, post_cancel_order-some, answer-IsChange}

route_of-orders : route_of orders_path ≡ some to_orders
unfolding route_of bytes_eq
route_of-orders = refl

route_of-reconcile : route_of reconcile_path ≡ some to_reconcile
unfolding route_of bytes_eq
route_of-reconcile = refl

route_of-cancel :
    (order_id : Text)
    → is_empty order_id ≡ false
    → route_of (cancel_path order_id) ≡ some (to_cancel order_id)
unfolding route_of bytes_eq
route_of-cancel order_id h = rw h refl

module _ (f : Formats) (crypto : Crypto) (settings : Settings) (secret : Text) (m : Messages)
    (q : Request) (s : State) where
  -- What such a request does is done.
  answer-submits :
      (v : Value) (b : SubmitOrderRequest) (market : MarketId)
      → q.method ≡ post
      → q.path ≡ orders_path
      → q.body ≡ json v
      → deserialize_submit f v ≡ some b
      → market_id_from_hex f.hex b.market_id ≡ ok market
      → (answer f crypto settings secret m q s).1
        ≡ (accept_order crypto settings q.now q.order_id b.signed_order market s).1
  unfolding answer answer_route answer_orders
  answer-submits v b market hm hp hb hd h =
      let r : route_of q.path ≡ some to_orders = ap route_of hp ∙ route_of-orders in
      let p = post_orders-ok f crypto settings secret m q s b.market_id b.signed_order market h in
      ground arith

  answer-cancels :
      (v : Value) (order_text position_text : Text) (id : OrderId) (position : ℕ)
      → q.method ≡ post
      → q.path ≡ cancel_path order_text
      → q.body ≡ json v
      → deserialize_cancel v ≡ some position_text
      → f.parse_uuid order_text ≡ some id
      → f.parse_u256 position_text ≡ some position
      → is_empty order_text ≡ false
      → (answer f crypto settings secret m q s).1 ≡ (cancel_by_id id position s).1
  unfolding answer answer_route answer_cancel
  answer-cancels v order_text position_text id position hm hp hb hd hi hn he =
      let r : route_of q.path ≡ some (to_cancel order_text) =
        ap route_of hp ∙ route_of-cancel order_text he in
      let p =
        post_cancel_order-some f crypto settings secret m q s order_text position_text id position
          hi hn in
      ground arith

  answer-reports :
      (v : Value) (b : ReconcilePayload)
      → q.method ≡ post
      → q.path ≡ reconcile_path
      → q.body ≡ json v
      → deserialize_reconcile v ≡ some b
      → (answer f crypto settings secret m q s).1
        ≡ record s { db = (post_reconcile f.hex secret q.header b s.db).1 }
  unfolding answer answer_route answer_reconcile
  answer-reports v b hm hp hb hd =
      let r : route_of q.path ≡ some to_reconcile = ap route_of hp ∙ route_of-reconcile in
      ground arith

  answer_complete :
      (s' : State)
      → Changes f crypto settings secret q s s'
      → (answer f crypto settings secret m q s).1 ≡ s'
  answer_complete s' (submits v b market hm hp hb hd h valid e) =
      answer-submits v b market hm hp hb hd h ∙ sym e
  answer_complete s' (cancels v a p id position hm hp hb hd hi hn he e) =
      answer-cancels v a p id position hm hp hb hd hi hn he ∙ sym e
  answer_complete s' (reports v b hm hp hb hd h e) = answer-reports v b hm hp hb hd ∙ sym e

  -- Whatever the method, the path, the header and the body of a request are, whatever the server
  -- refuses: the state is as before, or it changes as follows, and whenever a request is as follows
  -- its change is made. A POST request with a JSON body: for /orders with a market id that can be read
  -- and an order that has not expired, has its price and amount in range and is signed by its maker,
  -- to what accepting this order makes of the state; for /orders/ID/cancel with an order id and a
  -- position id that can be read, to what cancelling that order makes of it; for /internal/reconcile
  -- with the gateway's secret in the header, to what this report makes of it.
  pub answer-Changes :
      let s' = (answer f crypto settings secret m q s).1 in
      ((s' ≡ s) ⊎ Changes f crypto settings secret q s s')
      × ((s'' : State) → Changes f crypto settings secret q s s'' → s' ≡ s'')
  answer-Changes = (answer-IsChange f crypto settings secret m q s, answer_complete)
