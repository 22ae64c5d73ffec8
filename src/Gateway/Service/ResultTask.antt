-- ===== src/Gateway/Service/ResultTask.antt =====
-- What the task that stores the results does to the orders in the end.
use omniscient.Prelude.{
  ◌+◌, ◌<◌, ◌≡◌, refl, sym, ap, ◌∙◌, List, [], ◌∷◌, ◌++◌, map, All, All-append_left,
  All-append_right, arith, ◌==◌, if◌then◌else◌,
}
use omniscient.Shared.Domain.{OrderId}
use omniscient.Shared.Hex.{HexCodec}
use omniscient.Store.{OrderRow, OrderStatus, open_order, filled, Db}
use omniscient.Indexer.{i64_limit}
use omniscient.Gateway.Book.{Fill, MatchResult}
use omniscient.Gateway.Service.{State, process_match_result, process_results}
use omniscient.Gateway.Service.Results.{
  booked, status_after, settled_row, map-settled_row, process_fills-db,
}

-- The fills of all results.
abbrev pub all_fills : List MatchResult → List Fill
all_fills [] = []
all_fills (r ∷ rs) = r.fills ++ all_fills rs

booked-append :
    (fs gs : List Fill) (id : OrderId) → booked (fs ++ gs) id ≡ booked fs id + booked gs id
booked-append [] gs id = omega arith
booked-append (f ∷ fs) gs id = let e = booked-append fs gs id in omega arith

status_after-append :
    (fs gs : List Fill) (id : OrderId) (st : OrderStatus)
    → status_after (fs ++ gs) id st ≡ status_after gs id (status_after fs id st)
status_after-append [] gs id st = refl
status_after-append (f ∷ fs) gs id st =
    status_after-append fs gs id
      (if id == f.taker_order_id then open_order else if id == f.maker_order_id then filled else st)

settled_row-append :
    (fs gs : List Fill) (o : OrderRow)
    → settled_row gs (settled_row fs o) ≡ settled_row (fs ++ gs) o
settled_row-append fs gs o =
    let b = booked-append fs gs o.order_id in
    let c = status_after-append fs gs o.order_id o.status in ground arith

map-settled_row-append :
    (fs gs : List Fill) (os : List OrderRow)
    → map (settled_row gs) (map (settled_row fs) os) ≡ map (settled_row (fs ++ gs)) os
map-settled_row-append fs gs [] = refl
map-settled_row-append fs gs (o ∷ os) =
    ground (arith, settled_row-append fs gs o, map-settled_row-append fs gs os)

-- If the server refuses nothing and the amounts are i64 numbers, then when the task has stored some
-- results, each order's filled amount has grown by the amounts of all fills in which it is the maker
-- or the taker, its status is set by the last of these, and nothing else has changed in the tables.
pub process_results-orders :
    (hex : HexCodec) (rs : List MatchResult) (s : State)
    → s.db.refusals ≡ []
    → All (λ f. f.amount < i64_limit) (all_fills rs)
    → (process_results hex rs s).db.tables
      ≡ record (s.db.tables) { orders = map (settled_row (all_fills rs)) s.db.tables.orders }
unfolding process_results process_match_result
process_results-orders hex [] s n h =
    ap (λ (os : List OrderRow). record (s.db.tables) { orders = os })
      (sym (map-settled_row s.db.tables.orders))
process_results-orders hex (r ∷ rs) s n h =
    let k = All-append_left (λ f. f.amount < i64_limit) r.fills (all_fills rs) h in
    let l = All-append_right (λ f. f.amount < i64_limit) r.fills (all_fills rs) h in
    let e = process_fills-db hex r.market_id r.fills s n k in
    process_results-orders hex rs (process_match_result hex r s)
      (ap (λ (db : Db). db.refusals) e ∙ n) l
    ∙ ap
        (λ (db : Db). record (db.tables) {
          orders = map (settled_row (all_fills rs)) db.tables.orders;
        })
        e
    ∙ ap (λ (os : List OrderRow). record (s.db.tables) { orders = os })
        (map-settled_row-append r.fills (all_fills rs) s.db.tables.orders)
