-- ===== src/Gateway/Service/Results.antt =====
-- What a match result does to the orders, and what is published.
use omniscient.Prelude.{
  ℕ, ◌+◌, ◌<◌, ◌≡◌, refl, sym, ap, ◌∙◌, true, false, List, [], ◌∷◌, ◌++◌, map, All, arith, ◌==◌,
  if◌then◌else◌, append_assoc, append-nil,
}
use omniscient.Shared.Domain.{MarketId, OrderId}
use omniscient.Shared.Hex.{Text, HexCodec, market_id_to_text}
use omniscient.Store.{OrderRow, OrderStatus, open_order, filled, Db, execute}
use omniscient.Store.Table.{update_where}
use omniscient.Indexer.{i64_limit}
use omniscient.Gateway.Book.{Fill, MatchResult}
use omniscient.Gateway.Infra.{
  i64_or_zero, update_order_filled, Topic, MatchEvent, match_event, publish_match,
}
use omniscient.Gateway.Service.{State, process_fills, process_match_result}

-- What the fills add to an order's filled amount, as a maker and as a taker.
abbrev pub booked : List Fill → OrderId → ℕ
booked [] id = 0
booked (f ∷ fs) id =
    (if id == f.maker_order_id then f.amount else 0)
    + (if id == f.taker_order_id then f.amount else 0)
    + booked fs id

-- The status that the last fill with this order leaves: open for its taker, filled for its maker.
abbrev pub status_after : List Fill → OrderId → OrderStatus → OrderStatus
status_after [] id st = st
status_after (f ∷ fs) id st =
    status_after fs id
      (if id == f.taker_order_id then open_order else if id == f.maker_order_id then filled else st)

abbrev pub settled_row : List Fill → OrderRow → OrderRow
settled_row fs o = record o {
  filled_amount = o.filled_amount + booked fs o.order_id;
  status = status_after fs o.order_id o.status;
}

-- The two statements for one fill, on the orders.
one_fill : Fill → List OrderRow → List OrderRow
one_fill f os =
    update_where (λ o. o.order_id == f.taker_order_id)
      (λ o. record o {
        filled_amount = o.filled_amount + i64_or_zero f.amount;
        status = open_order;
      })
      (update_where (λ o. o.order_id == f.maker_order_id)
        (λ o. record o { filled_amount = o.filled_amount + i64_or_zero f.amount; status = filled })
        os)

map-one_fill :
    (f : Fill) (fs : List Fill) (os : List OrderRow)
    → f.amount < i64_limit
    → map (settled_row fs) (one_fill f os) ≡ map (settled_row (f ∷ fs)) os
unfolding one_fill update_where
map-one_fill f fs [] h = refl
map-one_fill f fs (o ∷ os) h = ground (arith, map-one_fill f fs os h)

pub map-settled_row : (os : List OrderRow) → map (settled_row []) os ≡ os
map-settled_row [] = refl
map-settled_row (o ∷ os) = ground (arith, map-settled_row os)

one_fill_db :
    (f : Fill) (db : Db)
    → db.refusals ≡ []
    → (update_order_filled f.taker_order_id f.amount false
        (update_order_filled f.maker_order_id f.amount true db).1).1
      ≡ record db { tables = record (db.tables) { orders = one_fill f db.tables.orders } }
unfolding update_order_filled execute one_fill
one_fill_db f db n = ground arith

module _ (hex : HexCodec) (market_id : MarketId) where
  -- The key and the event of a fill.
  abbrev pub message : Fill → Text × MatchEvent
  message f = (market_id_to_text hex market_id, match_event hex market_id f)

  one_message :
      (f : Fill) (topic : Topic)
      → topic.refusals ≡ []
      → (publish_match hex market_id f topic).1
        ≡ record topic { sent = topic.sent ++ message f ∷ [] }
  unfolding publish_match
  one_message f topic n = ground arith

  pub process_fills-db :
      (fs : List Fill) (s : State)
      → s.db.refusals ≡ []
      → All (λ f. f.amount < i64_limit) fs
      → (process_fills hex market_id fs s).db ≡ record (s.db) {
        tables = record (s.db.tables) { orders = map (settled_row fs) s.db.tables.orders };
      }
  unfolding process_fills
  process_fills-db [] s n h = let e = map-settled_row s.db.tables.orders in ground arith
  process_fills-db (f ∷ fs) s n h =
      let topic = (publish_match hex market_id f s.topic).1 in
      ap (λ (db : Db). (process_fills hex market_id fs (record s { topic = topic; db = db })).db)
        (one_fill_db f s.db n)
      ∙ process_fills-db fs
          (record s {
            topic = topic;
            db = record (s.db) {
              tables = record (s.db.tables) { orders = one_fill f s.db.tables.orders };
            };
          })
          n h.1
      ∙ ap (λ (os : List OrderRow). record (s.db) { tables = record (s.db.tables) { orders = os } })
          (map-one_fill f fs s.db.tables.orders h.0)

  process_fills-sent :
      (fs : List Fill) (s : State)
      → s.topic.refusals ≡ []
      → (process_fills hex market_id fs s).topic.sent ≡ s.topic.sent ++ map message fs
  unfolding process_fills
  process_fills-sent [] s n = sym (append-nil s.topic.sent)
  process_fills-sent (f ∷ fs) s n =
      let db =
        (update_order_filled f.taker_order_id f.amount false
          (update_order_filled f.maker_order_id f.amount true s.db).1).1 in
      let topic = record (s.topic) { sent = s.topic.sent ++ message f ∷ [] } in
      ap
        (λ (topic : Topic).
          (process_fills hex market_id fs (record s { topic = topic; db = db })).topic.sent)
        (one_message f s.topic n)
      ∙ process_fills-sent fs (record s { topic = topic; db = db }) n
      ∙ append_assoc s.topic.sent (message f ∷ []) (map message fs)

  -- If the server and the topic refuse nothing and the amounts are i64 numbers: the events of the
  -- fills are published in their order; each order's filled amount grows by the amounts of the fills
  -- in which it is the maker or the taker; its status is set by the last of these, to filled if it
  -- is the maker there and to open if it is the taker, whatever is left of it; nothing else changes
  -- in the tables.
  pub process_match_result_lem :
      (r : MatchResult) (s : State)
      → r.market_id ≡ market_id
      → s.db.refusals ≡ []
      → s.topic.refusals ≡ []
      → All (λ f. f.amount < i64_limit) r.fills
      → let s' = process_match_result hex r s in
        (s'.topic.sent ≡ s.topic.sent ++ map message r.fills)
        × (s'.db.tables
            ≡ record (s.db.tables) { orders = map (settled_row r.fills) s.db.tables.orders })
  unfolding process_match_result
  process_match_result_lem r s e n k h =
      rw e (
        process_fills-sent r.fills s k,
        ap (λ (db : Db). db.tables) (process_fills-db r.fills s n h),
      )
