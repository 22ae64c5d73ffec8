-- ===== src/Gateway/Tests/Service.antt =====
-- Orders that are accepted and stored, results that are stored, and books that are rebuilt.
use omniscient.Prelude.{
  ℕ, ◌≡◌, ◌≢◌, ◌⊎◌, ◌≤◌, refl, true, false, none, List, [], ◌∷◌, ◌++◌, length, filter, map, arith,
}
use omniscient.Prelude.Integers.{pos}
use omniscient.Prelude.Result.{ok, err}
use omniscient.Shared.Domain.{OrderId, bytes_eq, buy, sell}
use omniscient.Shared.Order.{SignedOrder, usdc, asset_type, required_collateral}
use omniscient.Shared.Signing.{replicate, verify_order_signature}
use omniscient.Shared.Hex.{address_try_from, market_id_try_from, try_from_slice}
use omniscient.Shared.Tests.Codec.{codec}
use omniscient.Shared.Tests.Signing.{crypto}
use omniscient.Store.{Balance, OrderRow, filled, Db, sqlx, execute, fetch, execute_count}
use omniscient.Gateway.Book.{MatchResult, Fill}
use omniscient.Gateway.Book.Matching.{IsValid, opposite}
use omniscient.Gateway.Engine.{Books, cancel_order, book_at}
use omniscient.Gateway.Infra.{
  OpenOrderRow, is_account, ensure_user, reserve_collateral, insert_order, insert_hold,
  load_open_orders, open_order_row, open_order_rows,
}
use omniscient.Gateway.Service.{
  OrderError, queue_full, insert_hold_error, Settings, State, validate_signed_order, accept_order,
  store_order, try_send, place_command, process_match_result, process_results, cancel_by_id,
  rebuild_books,
}
use omniscient.Gateway.Service.Storing.{account, reservable, reserved, order_row, hold_row}
use omniscient.Gateway.Service.Accept.{
  IsSigned, accept_order-ok, accept_order-balances, accept_order-leftover,
}
use omniscient.Gateway.Service.Results.{message, settled_row, process_match_result_lem}
use omniscient.Gateway.Service.ResultTask.{process_results-orders}
use omniscient.Gateway.Service.Cancellation.{cancelled_row, open_orders, cancel_by_id_lem}
use omniscient.Gateway.Service.Rebuild.{queue_of, rebuild_books-queue_of}
use omniscient.Gateway.Tests.Sample.{addr, market}

abbrev pub settings : Settings
settings = record { chain_id = 1; settlement_exchange_addr = replicate 20 2 }

-- Ten shares for a third of a dollar each.
abbrev pub signed : SignedOrder
signed = record {
  order = record {
    salt = record { bytes = replicate 32 5 };
    maker = addr 1;
    position_id = 9;
    price = 333_333;
    amount = 10;
    side = buy;
    nonce = 4;
    deadline = 200;
  };
  signature = replicate 65 0;
}

abbrev row : Balance
row = record {
  user_address = replicate 20 1;
  asset_type = usdc;
  position_id = none;
  available_amount = pos 8;
  hold_amount = 0;
  finalized_block_number = 3;
}

abbrev pub db : Db
db = record {
  tables = record {
    users = [];
    markets = [];
    balances = row ∷ [];
    orders = [];
    holds = [];
    cursors = [];
    checkpoints = [];
    logs = [];
  };
  refusals = [];
}

abbrev pub start : State
start = record {
  db = db;
  is_receiving = true;
  queue = [];
  topic = record { sent = []; refusals = [] };
}

one_account : length (filter (account signed.order) (row ∷ [])) ≡ 1
unfolding is_account bytes_eq asset_type
one_account = refl

signed-IsSigned : IsSigned crypto settings 100 signed
signed-IsSigned = record {
  not_expired = omega arith;
  price_pos = omega arith;
  price_le = omega arith;
  amount_pos = omega arith;
  signature_length = refl;
  signed_by_maker = refl;
}

has_collateral : length (filter (reservable signed.order) (row ∷ [])) ≢ 0
unfolding is_account bytes_eq asset_type required_collateral
has_collateral = ground arith

accept_order-ok_example :
    let r = accept_order crypto settings 100 6 signed market start in
    IsSigned crypto settings 100 signed
    × (◌≡◌ {A = OrderId} 6 6)
    × (length (filter (reservable signed.order) (row ∷ [])) ≢ 0)
    × (r.1.db.tables.balances ≡ reserved signed.order (row ∷ []))
    × (r.1.db.tables.orders ≡ order_row 6 signed market ∷ [])
    × (r.1.db.tables.holds ≡ hold_row 6 signed ∷ [])
    × (r.1.queue ≡ place_command 6 signed market ∷ [])
unfolding accept_order store_order validate_signed_order verify_order_signature ensure_user
    reserve_collateral insert_order insert_hold try_send execute execute_count is_account bytes_eq
    asset_type required_collateral
accept_order-ok_example =
    accept_order-ok crypto settings 100 6 signed market start 6 (let e = one_account in omega arith)
      refl

abbrev refused : State
refused = record start { db = record db { refusals = false ∷ false ∷ false ∷ true ∷ [] } }

accept_order-balances_example :
    let r = accept_order crypto settings 100 6 signed market refused in
    ((r.1.db.tables.balances ≡ row ∷ [])
      ⊎ (r.1.db.tables.balances ≡ reserved signed.order (row ∷ [])))
    × (1 ≤ 1 → (e : OrderError) → r.0 ≡ err e → e ≢ queue_full → r.1.db.tables.balances ≡ row ∷ [])
accept_order-balances_example =
    accept_order-balances crypto settings 100 6 signed market refused
      (let e = one_account in omega arith)

accept_order-leftover_example :
    let r = accept_order crypto settings 100 6 signed market refused in
    (r.0 ≡ err (insert_hold_error sqlx))
    × (r.1.db.tables.balances ≡ row ∷ [])
    × (r.1.db.tables.orders ≡ order_row 6 signed market ∷ [])
    × (r.1.queue ≡ [])
accept_order-leftover_example =
    accept_order-leftover crypto settings 100 6 signed market refused
      (let e = one_account in omega arith) signed-IsSigned has_collateral refl

-- Two fills: one with the order 0 as their maker, and one with it as their taker.
abbrev fills : List Fill
fills = fill 0 1 4 ∷ fill 2 0 3 ∷ []
  where
    fill : OrderId → OrderId → ℕ → Fill
    fill maker taker amount = record {
      maker_order_id = maker;
      taker_order_id = taker;
      maker = addr 1;
      taker = addr 2;
      price = 500_000;
      amount = amount;
      taker_side = sell;
    }

abbrev stored : OrderId → OrderRow
stored id = record (order_row id signed market) { amount = 10 }

abbrev listed : State
listed = record start {
  db = record db { tables = record (db.tables) { orders = stored 0 ∷ stored 1 ∷ stored 7 ∷ [] } };
}

process_match_result_lem_example :
    let s =
      process_match_result codec
        (record { market_id = market; fills = fills; resting = none; fully_filled = true })
        listed in
    (s.topic.sent ≡ map (message codec market) fills)
    × (s.db.tables ≡ record (listed.db.tables) {
      orders = map (settled_row fills) (stored 0 ∷ stored 1 ∷ stored 7 ∷ []);
    })
process_match_result_lem_example =
    process_match_result_lem codec market
      (record { market_id = market; fills = fills; resting = none; fully_filled = true }) listed
      refl refl refl (omega arith)

abbrev results : List MatchResult
results =
    record { market_id = market; fills = fills; resting = none; fully_filled = true }
    ∷ record { market_id = market; fills = fills; resting = none; fully_filled = true }
    ∷ []

process_results-orders_example :
    (process_results codec results listed).db.tables ≡ record (listed.db.tables) {
      orders = map (settled_row (fills ++ fills)) (stored 0 ∷ stored 1 ∷ stored 7 ∷ []);
    }
process_results-orders_example = process_results-orders codec results listed refl (omega arith)

cancel_by_id_lem_example :
    let r = cancel_by_id 1 9 listed in
    let t = listed.db.tables in
    (r.0 ≡ ok tt)
    × (r.1.queue ≡ cancel_order 9 1 ∷ [])
    × (r.1.db.tables
        ≡ record t { orders = map (cancelled_row 1) (stored 0 ∷ stored 1 ∷ stored 7 ∷ []) })
    × (r.0 ≡ ok tt → open_orders 1 r.1.db.tables.orders ≡ [])
    × (r.1.db.tables.balances ≡ row ∷ [])
    × (r.1.db.tables.holds ≡ [])
cancel_by_id_lem_example = cancel_by_id_lem 1 9 listed

-- The row of the open order 0, as it is loaded.
abbrev loaded : OpenOrderRow
loaded = record {
  order_id = 0;
  user_address = addr 1;
  market_id = market;
  side = buy;
  price = 333_333;
  amount = 10;
  filled_amount = 4;
  nonce = 4;
  deadline = 200;
  position_id = 9;
}

-- Two open orders and one that is filled.
abbrev left : Db
left = record db {
  tables = record (db.tables) {
    orders =
        record (stored 0) { filled_amount = 4 }
        ∷ record (stored 1) { status = filled }
        ∷ record (stored 7) { side = sell; price = 600_000 }
        ∷ [];
  };
}

abbrev rows : List OpenOrderRow
rows = loaded ∷ record loaded { order_id = 7; side = sell; price = 600_000; filled_amount = 0 } ∷ []

load-left : load_open_orders left ≡ (ok rows, left)
unfolding load_open_orders open_order_rows open_order_row fetch address_try_from market_id_try_from
    try_from_slice
load-left = refl

rebuild_books-queue_of_example :
    (books : Books) × (rebuild_books left ≡ (ok books, left))
    × ((p : ℕ)
        → IsValid (book_at p books)
          × (opposite sell (book_at p books) ≡ queue_of buy p 0 [] rows)
          × (opposite buy (book_at p books) ≡ queue_of sell p 0 [] rows))
rebuild_books-queue_of_example = rebuild_books-queue_of left left rows load-left (omega arith)
