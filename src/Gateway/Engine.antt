-- ===== src/Gateway/Engine.antt =====
-- gateway/src/engine.rs: the matcher thread.
pub mod Place
pub mod Run
pub mod Invariant
pub mod NoTrade
use omniscient.Prelude.{
  ℕ, Bool, true, false, Option, none, some, List, [], ◌∷◌, ◌++◌, foldl, ◌==◌, if◌then◌else◌,
  add_u64, sub_u64,
}
use omniscient.Shared.Domain.{Address, MarketId, OrderId, OrderSide}
use omniscient.Gateway.Book.{RestingOrder, Fill, MatchResult, OrderBook, new, match_by_side, insert}
use omniscient.Gateway.Book.Cancel
use omniscient.Gateway.Book.Cancel.{prune}

-- The fields of `MatchCommand::PlaceOrder`.
pub record PlaceOrder : Type 0 where
  pub market_id : MarketId
  pub position_id : ℕ
  pub order_id : OrderId
  pub maker : Address
  pub price : ℕ
  pub amount : ℕ
  pub side : OrderSide
  pub nonce : ℕ
  pub deadline : ℕ

pub data MatchCommand : Type 0 where
  place_order : PlaceOrder → MatchCommand
  cancel_order : ℕ → OrderId → MatchCommand
  cancel_all : MarketId → ℕ → Address → MatchCommand
  shutdown : MatchCommand

-- `HashMap<U256, OrderBook>`
abbrev pub Books : Type 0
Books = ℕ → Option OrderBook

abbrev pub put : ℕ → OrderBook → Books → Books
put p b books q = if p == q then some b else books q

-- `entry(position_id).or_default()`, read
abbrev pub book_at : ℕ → Books → OrderBook
book_at p books = elim (books p) [ none ↦ new | some b ↦ b ]

-- `fills.iter().map(|f| f.amount).sum::<u64>()`
unfoldable pub sum_amounts : List Fill → ℕ
sum_amounts fs = foldl (λ acc f. add_u64 acc f.amount) 0 fs

-- The order that is built to rest when `fills` did not use up the incoming one.
unfoldable pub rest_order : PlaceOrder → List Fill → RestingOrder
unfolding sum_amounts
rest_order c fills = record {
  order_id = c.order_id;
  maker = c.maker;
  price = c.price;
  amount = c.amount;
  filled = sub_u64 c.amount (sum_amounts fills);
  side = c.side;
  seq = 0;
  nonce = c.nonce;
  deadline = c.deadline;
}

-- The arm of `PlaceOrder` on its book.
unfoldable pub place : PlaceOrder → OrderBook → OrderBook × MatchResult
unfolding rest_order
place c book =
    let (matched, fills, fully_filled) =
      match_by_side c.side c.order_id c.maker c.price c.amount book in
    let (inserted, order) = insert matched (rest_order c fills) in
    if fully_filled
    then (
      prune matched,
      record { market_id = c.market_id; fills = fills; resting = none; fully_filled = true },
    )
    else (
      prune inserted,
      record { market_id = c.market_id; fills = fills; resting = some order; fully_filled = false },
    )

-- The arm of `CancelOrder`.
pub cancel_at : ℕ → OrderId → Books → Books
cancel_at p id books = elim (books p) [
  | none ↦ books
  | some b ↦ put p (prune (Cancel.cancel id b).0) books
]

-- The arm of `CancelAll`; the removed ids are only logged.
pub cancel_all_at : ℕ → Address → Books → Books
cancel_all_at p maker books = elim (books p) [
  | none ↦ books
  | some b ↦ put p (prune (Cancel.cancel_all maker b).0) books
]

-- The loop over the commands that are received, each with whether the result channel is open when
-- it is handled. The books at the end, and the results sent.
pub run_matcher : List (MatchCommand × Bool) → Books → List MatchResult → Books × List MatchResult
run_matcher [] books sent = (books, sent)
run_matcher ((shutdown, open_channel) ∷ cmds) books sent = (books, sent)
run_matcher ((place_order c, open_channel) ∷ cmds) books sent =
    let (book, result) = place c (book_at c.position_id books) in
    let books' = put c.position_id book books in
    let rest = run_matcher cmds books' (sent ++ result ∷ []) in
    if open_channel then rest else (books', sent)
run_matcher ((cancel_order p id, open_channel) ∷ cmds) books sent =
    run_matcher cmds (cancel_at p id books) sent
run_matcher ((cancel_all m p maker, open_channel) ∷ cmds) books sent =
    run_matcher cmds (cancel_all_at p maker books) sent
