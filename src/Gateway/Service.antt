-- ===== src/Gateway/Service.antt =====
-- gateway/src/service.rs: how an order is accepted and cancelled, how results are stored, and the
-- books at start-up.
pub mod Storing
pub mod Accept
pub mod Results
pub mod Rebuild
pub mod Cancellation
pub mod ResultTask
use omniscient.Prelude.{
  ℕ, ◌%◌, Bool, true, false, ◌&&◌, ◌||◌, Option, none, some, List, [], ◌∷◌, ◌++◌, foldl, length,
  ltb, leb, ◌==◌, if◌then◌else◌, not, u64_mod,
}
use omniscient.Prelude.Result.{Result, ok, err}
use omniscient.Shared.Constants.{price_scale}
use omniscient.Shared.Domain.{Address, MarketId, OrderId, OrderSide, bytes_eq}
use omniscient.Shared.Hex.{HexCodec}
use omniscient.Shared.Order.{
  Order, SignedOrder, AssetType, usdc, ctf, required_collateral, asset_type,
}
use omniscient.Shared.Signing.{Crypto, SignatureError, verify_order_signature}
use omniscient.Store.{Bytes, Tables, Db, Sql, Error, give, execute, fetch, ◌>>=◌, ◌>>◌}
use omniscient.Indexer.{i64_limit}
use omniscient.Gateway.Book.{RestingOrder, Fill, MatchResult, OrderBook, new, insert}
use omniscient.Gateway.Book.Cancel.{prune}
use omniscient.Gateway.Engine.{
  PlaceOrder, MatchCommand, place_order, cancel_order, Books, put, book_at,
}
use omniscient.Gateway.Infra.{
  i64_or_zero, insert_order, insert_hold, reserve_collateral, release_collateral,
  update_order_filled, cancel_order_db, OpenOrderRow, load_open_orders, ensure_user, Topic,
  publish_match,
}

-- The messages of the errors.
pub data OrderError : Type 0 where
  order_expired price_out_of_range amount_zero maker_mismatch queue_full : OrderError
  signature_error : SignatureError → OrderError
  ensure_user_error collateral_error insert_order_error insert_hold_error cancel_order_error :
      Error → OrderError

-- The settings that are used, of `AppConfig`.
pub record Settings : Type 0 where
  pub chain_id : ℕ
  pub settlement_exchange_addr : Bytes

-- The database, whether the matcher still receives, the commands that it has not received, and the
-- topic.
pub record State : Type 0 where
  pub db : Db
  pub is_receiving : Bool
  pub queue : List MatchCommand
  pub topic : Topic

unfoldable pub validate_signed_order :
    Crypto → Settings → ℕ → SignedOrder → Result Address OrderError
validate_signed_order crypto settings now signed =
    let o = signed.order in
    if leb o.deadline now
    then err order_expired
    else if o.price == 0 || ltb price_scale o.price
    then err price_out_of_range
    else if o.amount == 0
    then err amount_zero
    else (elim (verify_order_signature crypto o signed.signature settings.chain_id
        settings.settlement_exchange_addr) [
          | err e ↦ err (signature_error e)
          | ok recovered ↦
              if bytes_eq recovered o.maker.bytes then ok o.maker else err maker_mismatch
        ])

-- `match_tx.try_send`, on a channel of 10,000
unfoldable pub try_send : MatchCommand → State → Option State
try_send cmd s =
    if s.is_receiving && ltb (length s.queue) 10_000
    then some (record s { queue = s.queue ++ cmd ∷ [] })
    else none

-- `map_err` of a statement's error
abbrev pub map_error : {A : Type 0} → (Error → OrderError) → Result A Error → Result A OrderError
map_error f (ok a) = ok a
map_error f (err e) = err (f e)

-- `if let Err(e) = … { let _ = release_collateral(…); return Err(…) }`
abbrev pub or_release :
    (Error → OrderError) → Sql (Unit {0}) → Sql (Unit {0}) → Db → Result (Unit {0}) OrderError × Db
or_release f release step db =
    let r = step db in elim r.0 [ ok u ↦ (ok tt, r.1) | err e ↦ (err (f e), (release r.1).1) ]

abbrev pub position_ref : Order → Option ℕ
position_ref o = elim (asset_type o) [ ctf ↦ some o.position_id | usdc ↦ none ]

-- `collateral as u64`
abbrev pub collateral_u64 : Order → ℕ
collateral_u64 o = required_collateral o % u64_mod

abbrev pub and_then :
    {S : Type 0}
    → (S → Result (Unit {0}) OrderError × S)
    → (S → Result (Unit {0}) OrderError × S)
    → S
    → Result (Unit {0}) OrderError × S
and_then m k s = let r = m s in elim r.0 [ ok u ↦ k r.1 | err e ↦ (err e, r.1) ]

-- The statements of `accept_order`.
unfoldable pub store_order :
    OrderId → SignedOrder → MarketId → Db → Result (Unit {0}) OrderError × Db
store_order order_id signed market_id =
    let o = signed.order in
    let asset = asset_type o in
    let release = release_collateral o.maker asset (position_ref o) (collateral_u64 o) in
    and_then (λ db. let r = ensure_user o.maker db in (map_error ensure_user_error r.0, r.1))
      (and_then
        (λ db.
          let r = reserve_collateral o.maker asset (position_ref o) (collateral_u64 o) db in
          (map_error collateral_error r.0, r.1))
        (and_then
          (or_release insert_order_error release (
            insert_order order_id o.maker market_id o.side o.price o.amount o.nonce o.salt.bytes
              o.position_id signed.signature (i64_or_zero o.deadline)))
          (or_release insert_hold_error release
            (insert_hold order_id o.maker asset (position_ref o) (collateral_u64 o)))))

abbrev pub place_command : OrderId → SignedOrder → MarketId → MatchCommand
place_command order_id signed market_id = place_order (record {
  market_id = market_id;
  position_id = signed.order.position_id;
  order_id = order_id;
  maker = signed.order.maker;
  price = signed.order.price;
  amount = signed.order.amount;
  side = signed.order.side;
  nonce = signed.order.nonce;
  deadline = signed.order.deadline;
})

-- `now` is the clock and `order_id` the random id.
unfoldable pub accept_order :
    Crypto
    → Settings
    → ℕ
    → OrderId
    → SignedOrder
    → MarketId
    → State
    → Result OrderId OrderError × State
accept_order crypto settings now order_id signed market_id s =
    elim (validate_signed_order crypto settings now signed) [
      | err e ↦ (err e, s)
      | ok maker ↦
          let r = store_order order_id signed market_id s.db in
          let s' = record s { db = r.1 } in
          elim r.0 [
            | err e ↦ (err e, s')
            | ok u ↦ elim (try_send (place_command order_id signed market_id) s') [
              | none ↦ (err queue_full, s')
              | some s'' ↦ (ok order_id, s'')
            ]
          ]
    ]

-- `cancel_order`
unfoldable pub cancel_by_id : OrderId → ℕ → State → Result (Unit {0}) OrderError × State
cancel_by_id order_id position_id s = elim (try_send (cancel_order position_id order_id) s) [
  | none ↦ (err queue_full, s)
  | some s' ↦
      let r = cancel_order_db order_id s'.db in
      (map_error cancel_order_error r.0, record s' { db = r.1 })
]

-- The loop over the fills: what fails is logged.
unfoldable pub process_fills : HexCodec → MarketId → List Fill → State → State
process_fills hex market_id [] s = s
process_fills hex market_id (f ∷ fs) s =
    let topic = (publish_match hex market_id f s.topic).1 in
    let db = (update_order_filled f.maker_order_id f.amount true s.db).1 in
    let db' = (update_order_filled f.taker_order_id f.amount false db).1 in
    process_fills hex market_id fs (record s { topic = topic; db = db' })

unfoldable pub process_match_result : HexCodec → MatchResult → State → State
process_match_result hex r s = process_fills hex r.market_id r.fills s

-- The task that `spawn_result_processor` spawns, over the results that it receives.
unfoldable pub process_results : HexCodec → List MatchResult → State → State
process_results hex [] s = s
process_results hex (r ∷ rs) s = process_results hex rs (process_match_result hex r s)

abbrev pub resting_of_row : OpenOrderRow → RestingOrder
resting_of_row row = record {
  order_id = row.order_id;
  maker = row.user_address;
  price = row.price;
  amount = row.amount;
  filled = row.filled_amount;
  side = row.side;
  seq = 0;
  nonce = row.nonce;
  deadline = row.deadline;
}

unfoldable pub insert_rows : List OpenOrderRow → Books → Books
insert_rows [] books = books
insert_rows (row ∷ rows) books =
    insert_rows rows
      (put row.position_id (insert (book_at row.position_id books) (resting_of_row row)).0 books)

abbrev pub no_books : Books
no_books p = none

-- `for book in books.values_mut()`
abbrev pub prune_all : Books → Books
prune_all books p = elim (books p) [ none ↦ none | some b ↦ some (prune b) ]

unfoldable pub rebuild_books : Sql Books
rebuild_books = do rows ← load_open_orders; give (ok (prune_all (insert_rows rows no_books)))
