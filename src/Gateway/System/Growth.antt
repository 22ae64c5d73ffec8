-- ===== src/Gateway/System/Growth.antt =====
-- No stored order goes away, and what is put into the queue is stored.
use omniscient.Prelude.{
  ℕ, ◌≡◌, ◌⊎◌, refl, ap, ◌∙◌, true, false, Option, List, [], ◌∷◌, ◌++◌, any, any-append, arith,
  ◌==◌, ==_iff,
}
use omniscient.Shared.Domain.{MarketId, OrderId}
use omniscient.Shared.Hex.{Text, HexCodec}
use omniscient.Shared.Order.{SignedOrder}
use omniscient.Shared.Signing.{Crypto}
use omniscient.Store.{OrderRow, Tables, Db, execute, transaction}
use omniscient.Indexer.Custody.{ensure_user_row, credit_usdc}
use omniscient.Gateway.Book.{Fill}
use omniscient.Gateway.Engine.{cancel_order}
use omniscient.Gateway.Infra.{update_order_filled, publish_match}
use omniscient.Gateway.Service.{
  Settings, State, store_order, place_command, try_send, accept_order, cancel_by_id, process_fills,
}
use omniscient.Gateway.Service.Storing.{order_row, store_order_ok}
use omniscient.Gateway.Api.{ReconcilePayload, post_reconcile}
use omniscient.Gateway.System.Stored.{
  IsStored, update_order_filled-IsStored, cancel_order_db-IsStored, store_order-IsStored,
}

-- Every order that is stored stays so.
abbrev pub IsGrown : Tables → Tables → Type 0
IsGrown t t' = (id : OrderId) → IsStored id t → IsStored id t'

row-IsStored :
    (order_id : OrderId) (signed : SignedOrder) (market_id : MarketId) (os : List OrderRow)
    (t : Tables)
    → t.orders ≡ os ++ order_row order_id signed market_id ∷ []
    → IsStored order_id t
row-IsStored order_id signed market_id os t e =
    let a =
      any-append (λ (o : OrderRow). o.order_id == order_id) os
        (order_row order_id signed market_id ∷ []) in
    let b = (==_iff order_id order_id).1 refl in
    ap (any (λ o. o.order_id == order_id)) e ∙ a ∙ ground (arith, b)

module _ (crypto : Crypto) (settings : Settings) (now : ℕ) (order_id : OrderId)
    (signed : SignedOrder) (market_id : MarketId) (s : State) where
  pub accept_order-IsGrown :
      IsGrown s.db.tables (accept_order crypto settings now order_id signed market_id s).1.db.tables
  unfolding accept_order try_send
  accept_order-IsGrown id j =
      let k = store_order-IsStored id order_id signed market_id s.db j in ground (arith, k)

  pub accept_order-queue :
      let r = accept_order crypto settings now order_id signed market_id s in
      (r.1.queue ≡ s.queue)
      ⊎ ((r.1.queue ≡ s.queue ++ place_command order_id signed market_id ∷ [])
          × IsStored order_id r.1.db.tables)
  unfolding accept_order try_send
  accept_order-queue =
      let r = store_order order_id signed market_id s.db in
      let k = store_order_ok order_id signed market_id s.db.tables s.db.refusals in
      let l = row-IsStored order_id signed market_id s.db.tables.orders r.1.tables in
      ground (arith, k, l)

pub cancel_by_id-IsGrown :
    (order_id : OrderId) (position : ℕ) (s : State)
    → IsGrown s.db.tables (cancel_by_id order_id position s).1.db.tables
unfolding cancel_by_id try_send
cancel_by_id-IsGrown order_id position s id j =
    let k = cancel_order_db-IsStored id order_id s.db j in ground (arith, k)

pub cancel_by_id-queue :
    (order_id : OrderId) (position : ℕ) (s : State)
    → let s' = (cancel_by_id order_id position s).1 in
      (s'.queue ≡ s.queue) ⊎ (s'.queue ≡ s.queue ++ cancel_order position order_id ∷ [])
unfolding cancel_by_id try_send
cancel_by_id-queue order_id position s = ground arith

pub post_reconcile-orders :
    (hex : HexCodec) (secret : Text) (header : Option Text) (body : ReconcilePayload) (db : Db)
    → (post_reconcile hex secret header body db).1.tables.orders ≡ db.tables.orders
unfolding post_reconcile transaction execute ensure_user_row credit_usdc
post_reconcile-orders hex secret header body db = ground arith

pub process_fills-IsGrown :
    (hex : HexCodec) (market_id : MarketId) (fs : List Fill) (s : State)
    → IsGrown s.db.tables (process_fills hex market_id fs s).db.tables
unfolding process_fills
process_fills-IsGrown hex market_id [] s id j = j
process_fills-IsGrown hex market_id (f ∷ fs) s id j =
    process_fills-IsGrown hex market_id fs
      (record s {
        topic = (publish_match hex market_id f s.topic).1;
        db =
            (update_order_filled f.taker_order_id f.amount false
              (update_order_filled f.maker_order_id f.amount true s.db).1).1;
      })
      id
      (update_order_filled-IsStored id f.taker_order_id f.amount false
        (update_order_filled f.maker_order_id f.amount true s.db).1
        (update_order_filled-IsStored id f.maker_order_id f.amount true s.db j))

pub process_fills-queue :
    (hex : HexCodec) (market_id : MarketId) (fs : List Fill) (s : State)
    → (process_fills hex market_id fs s).queue ≡ s.queue
unfolding process_fills
process_fills-queue hex market_id [] s = refl
process_fills-queue hex market_id (f ∷ fs) s = process_fills-queue hex market_id fs (record s {
  topic = (publish_match hex market_id f s.topic).1;
  db =
      (update_order_filled f.taker_order_id f.amount false
        (update_order_filled f.maker_order_id f.amount true s.db).1).1;
})
