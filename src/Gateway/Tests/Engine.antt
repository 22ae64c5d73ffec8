-- ===== src/Gateway/Tests/Engine.antt =====
-- The matcher thread on the sample.
use omniscient.Prelude.{◌≤◌, ◌≡◌, ◌↔◌, Bool, true, none, some, List, [], ◌∷◌, All, arith}
use omniscient.Shared.Domain.{buy, sell}
use omniscient.Gateway.Book.{RestingOrder}
use omniscient.Gateway.Book.Fills.{total}
use omniscient.Gateway.Engine.{
  PlaceOrder, MatchCommand, place_order, cancel_order, cancel_all, shutdown, Books, place,
  run_matcher,
}
use omniscient.Gateway.Engine.Place.{place_accounts, TakesOver}
use omniscient.Gateway.Engine.Run.{AllBooks}
use omniscient.Gateway.Engine.Invariant.{IsHealthy, run_matcher-IsHealthy}
use omniscient.Gateway.Engine.NoTrade.{HasNoTrade, run_matcher-HasNoTrade}
use omniscient.Gateway.Tests.Sample.{addr, market, sample, sample-IsValid, incoming}

abbrev no_books : Books
no_books p = none

-- A sell and a buy that cross, a cancellation, and another buy.
abbrev session : List (MatchCommand × Bool)
session =
    (place_order (incoming 1 1 sell 500_000 10), true)
    ∷ (place_order (incoming 2 2 buy 500_000 10), true)
    ∷ (cancel_order 9 1, true)
    ∷ (place_order (incoming 3 3 buy 400_000 5), true)
    ∷ (cancel_all market 9 (addr 3), true)
    ∷ (shutdown, true)
    ∷ []

abbrev taker : PlaceOrder
taker = incoming 8 2 buy 510_000 50

place_accounts_example :
    let r = (place taker sample).1 in
    (total r.fills ≤ 50)
    × ((r.fully_filled ≡ true) ↔ (total r.fills ≡ 50))
    × ((r.resting ≡ none) ↔ (r.fully_filled ≡ true))
    × ((o : RestingOrder) → r.resting ≡ some o → TakesOver taker o)
place_accounts_example = place_accounts taker sample sample-IsValid (omega arith)

run_matcher-IsHealthy_example : AllBooks IsHealthy (run_matcher session no_books []).0
run_matcher-IsHealthy_example = run_matcher-IsHealthy session no_books (omega arith) (λ p b e. cc)

run_matcher-HasNoTrade_example : All HasNoTrade (run_matcher session no_books []).1
run_matcher-HasNoTrade_example = run_matcher-HasNoTrade session no_books (omega arith) (λ p b e. cc)
