-- ===== src/Gateway/Api/Requests/Sound.antt =====
-- A request that changes anything is one of those that may.
use omniscient.Prelude.{
  ℕ, ◌≡◌, ◌⊎◌, inl, inr, refl, true, false, ap, ◌∙◌, Option, none, some, is_empty, arith,
}
use omniscient.Prelude.Result.{Result, ok, err}
use omniscient.Shared.Domain.{MarketId, OrderId}
use omniscient.Shared.Hex.{Text, DomainError, market_id_from_hex}
use omniscient.Shared.Order.{SignedOrder}
use omniscient.Shared.Signing.{Crypto}
use omniscient.Shared.Json.{Value}
use omniscient.Shared.Wire.{Formats}
use omniscient.Store.{Db}
use omniscient.Gateway.Service.{Settings, State, accept_order, cancel_by_id}
use omniscient.Gateway.Service.Accept.{accept_order-IsSigned}
use omniscient.Gateway.Api.{Messages, post_orders, post_cancel_order, post_reconcile, get_health}
use omniscient.Gateway.Api.Reconcile.{post_reconcile-secret}
use omniscient.Gateway.Api.Requests.{
  SubmitOrderRequest, deserialize_submit, deserialize_cancel, deserialize_reconcile, json, Request,
  Route, Answer, status, upgrade, Method, answer_status, route_of, answer_orders, answer_cancel,
  answer_reconcile, answer_route, answer, to_orders, to_cancel, to_reconcile, to_health, to_ws, get,
  post, other_method,
}
use omniscient.Gateway.Api.Requests.Access.{
  orders_path, cancel_path, reconcile_path, path_of, Changes, submits, cancels, reports, named,
  route_of-path_of, with_json_keeps,
}

module _ (f : Formats) (crypto : Crypto) (settings : Settings) (secret : Text) (m : Messages)
    (q : Request) (s : State) where
  abbrev pub IsChange : State → Type 0
  IsChange s' = (s' ≡ s) ⊎ Changes f crypto settings secret q s s'

  post_orders-err :
      (t : Text) (signed : SignedOrder) (e : DomainError)
      → market_id_from_hex f.hex t ≡ err e
      → (post_orders f.hex crypto settings m q.now q.order_id t signed s).1 ≡ s
  unfolding post_orders
  post_orders-err t signed e h = ground arith

  pub post_orders-ok :
      (t : Text) (signed : SignedOrder) (market : MarketId)
      → market_id_from_hex f.hex t ≡ ok market
      → (post_orders f.hex crypto settings m q.now q.order_id t signed s).1
        ≡ (accept_order crypto settings q.now q.order_id signed market s).1
  unfolding post_orders
  post_orders-ok t signed market h = ground arith

  post_orders-IsChange :
      (v : Value) (b : SubmitOrderRequest)
      → q.method ≡ post
      → q.path ≡ orders_path
      → q.body ≡ json v
      → deserialize_submit f v ≡ some b
      → IsChange
          (post_orders f.hex crypto settings m q.now q.order_id b.market_id b.signed_order s).1
  post_orders-IsChange v b hm hp hb hd = by_market (market_id_from_hex f.hex b.market_id) refl
    where
      after : State
      after = (post_orders f.hex crypto settings m q.now q.order_id b.market_id b.signed_order s).1

      by_market :
          (r : Result MarketId DomainError)
          → market_id_from_hex f.hex b.market_id ≡ r
          → IsChange after
      by_market (err x) e = inl (post_orders-err b.market_id b.signed_order x e)
      by_market (ok market) e =
          let same = post_orders-ok b.market_id b.signed_order market e in
          elim (accept_order-IsSigned crypto settings q.now q.order_id b.signed_order market s) [
            | inl h ↦ inr (submits v b market hm hp hb hd e h same)
            | inr h ↦ inl (same ∙ h)
          ]

  post_cancel_order-none :
      (order_id position_id : Text)
      → (f.parse_uuid order_id ≡ none) ⊎ (f.parse_u256 position_id ≡ none)
      → (post_cancel_order f.parse_uuid f.parse_u256 m order_id position_id s).1 ≡ s
  unfolding post_cancel_order
  post_cancel_order-none order_id position_id h = ground arith

  pub post_cancel_order-some :
      (order_id position_id : Text) (id : OrderId) (position : ℕ)
      → f.parse_uuid order_id ≡ some id
      → f.parse_u256 position_id ≡ some position
      → (post_cancel_order f.parse_uuid f.parse_u256 m order_id position_id s).1
        ≡ (cancel_by_id id position s).1
  unfolding post_cancel_order
  post_cancel_order-some order_id position_id id position h k = ground arith

  post_cancel_order-IsChange :
      (v : Value) (order_id position_id : Text)
      → q.method ≡ post
      → q.path ≡ cancel_path order_id
      → q.body ≡ json v
      → deserialize_cancel v ≡ some position_id
      → is_empty order_id ≡ false
      → IsChange (post_cancel_order f.parse_uuid f.parse_u256 m order_id position_id s).1
  post_cancel_order-IsChange v order_id position_id hm hp hb hd he =
      by_parts (f.parse_uuid order_id) (f.parse_u256 position_id) refl refl
    where
      by_parts :
          (a b : Option ℕ)
          → f.parse_uuid order_id ≡ a
          → f.parse_u256 position_id ≡ b
          → IsChange (post_cancel_order f.parse_uuid f.parse_u256 m order_id position_id s).1
      by_parts none b h k = inl (post_cancel_order-none order_id position_id (inl h))
      by_parts (some id) none h k = inl (post_cancel_order-none order_id position_id (inr k))
      by_parts (some id) (some position) h k = inr (
          cancels v order_id position_id id position hm hp hb hd h k he
            (post_cancel_order-some order_id position_id id position h k))

  answer_orders-IsChange :
      q.method ≡ post
      → q.path ≡ orders_path
      → IsChange (answer_orders f crypto settings secret m q s).1
  unfolding answer_orders
  answer_orders-IsChange hm hp =
      with_json_keeps IsChange q.body (deserialize_submit f)
        (λ b.
          let r =
            post_orders f.hex crypto settings m q.now q.order_id b.market_id b.signed_order s in
          (answer_status 202 r.0, r.1))
        s (inl refl) (λ v b hb hd. post_orders-IsChange v b hm hp hb hd)

  answer_cancel-IsChange :
      (order_id : Text)
      → q.method ≡ post
      → q.path ≡ cancel_path order_id
      → is_empty order_id ≡ false
      → IsChange (answer_cancel f crypto settings secret m order_id q s).1
  unfolding answer_cancel
  answer_cancel-IsChange order_id hm hp he =
      with_json_keeps IsChange q.body deserialize_cancel
        (λ position_id.
          let r = post_cancel_order f.parse_uuid f.parse_u256 m order_id position_id s in
          (answer_status 200 r.0, r.1))
        s (inl refl)
        (λ v position_id hb hd. post_cancel_order-IsChange v order_id position_id hm hp hb hd he)

  answer_reconcile-IsChange :
      q.method ≡ post
      → q.path ≡ reconcile_path
      → IsChange (answer_reconcile f crypto settings secret m q s).1
  unfolding answer_reconcile
  answer_reconcile-IsChange hm hp =
      with_json_keeps IsChange q.body deserialize_reconcile
        (λ b.
          let r = post_reconcile f.hex secret q.header b s.db in
          (answer_status 200 r.0, record s { db = r.1 }))
        s (inl refl)
        (λ v b hb hd. elim (post_reconcile-secret f.hex secret q.header b s.db) [
          | inl h ↦ inr (reports v b hm hp hb hd h refl)
          | inr h ↦ inl (ap (λ (db : Db). record s { db = db }) h)
        ])

  only_post :
      (method : Method) (a : Answer × State)
      → q.method ≡ method
      → (q.method ≡ post → IsChange a.1)
      → IsChange
          (elim method as (λ _. Answer × State) [
            | post ↦ a
            | get ↦ (status 405, s)
            | other_method ↦ (status 405, s)
          ]).1
  only_post post a e h = h e
  only_post get a e h = inl refl
  only_post other_method a e h = inl refl

  only_get :
      (method : Method) (a : Answer)
      → IsChange
          (elim method as (λ _. Answer × State) [
            | get ↦ (a, s)
            | post ↦ (status 405, s)
            | other_method ↦ (status 405, s)
          ]).1
  only_get post a = inl refl
  only_get get a = inl refl
  only_get other_method a = inl refl

  answer_route-IsChange :
      (r : Route)
      → q.path ≡ path_of r
      → named r ≡ true
      → IsChange (answer_route f crypto settings secret m r q s).1
  unfolding answer_route
  answer_route-IsChange to_orders hp hn =
      only_post q.method (answer_orders f crypto settings secret m q s) refl
        (λ hm. answer_orders-IsChange hm hp)
  answer_route-IsChange (to_cancel id) hp hn =
      only_post q.method (answer_cancel f crypto settings secret m id q s) refl
        (λ hm. answer_cancel-IsChange id hm hp (ground arith))
  answer_route-IsChange to_reconcile hp hn =
      only_post q.method (answer_reconcile f crypto settings secret m q s) refl
        (λ hm. answer_reconcile-IsChange hm hp)
  answer_route-IsChange to_health hp hn = only_get q.method (status (get_health q.db_ok q.kafka_ok))
  answer_route-IsChange to_ws hp hn = only_get q.method upgrade

  pub answer-IsChange : IsChange (answer f crypto settings secret m q s).1
  unfolding answer
  answer-IsChange = by_route (route_of q.path) refl
    where
      by_route :
          (r : Option Route)
          → route_of q.path ≡ r
          → IsChange
              (elim r as (λ _. Answer × State) [
                | none ↦ (status 404, s)
                | some r ↦ answer_route f crypto settings secret m r q s
              ]).1
      by_route none e = inl refl
      by_route (some r) e = (let p = route_of-path_of q.path r e in answer_route-IsChange r p.0 p.1)
