-- ===== src/Gateway/Tests/Sample.antt =====
-- A small book: three sells at two prices, two buys at two prices.
use omniscient.Prelude.{ℕ, zero, suc, List, [], ◌∷◌, arith}
use omniscient.Shared.Domain.{Address, MarketId, OrderSide, buy, sell}
use omniscient.Gateway.Book.{RestingOrder, OrderBook}
use omniscient.Gateway.Book.Matching.{IsValid}
use omniscient.Gateway.Engine.{PlaceOrder}

abbrev replicate : ℕ → ℕ → List ℕ
replicate zero x = []
replicate (suc n) x = x ∷ replicate n x

-- `Address([n; 20])`
abbrev pub addr : ℕ → Address
addr n = record { bytes = replicate 20 n }

abbrev pub market : MarketId
market = record { bytes = replicate 32 7 }

abbrev pub order : ℕ → ℕ → OrderSide → ℕ → ℕ → RestingOrder
order id maker side price amount = record {
  order_id = id;
  maker = addr maker;
  price = price;
  amount = amount;
  filled = 0;
  side = side;
  seq = id;
  nonce = 0;
  deadline = 0;
}

abbrev pub sample : OrderBook
sample = record {
  buys = (480_000, order 3 1 buy 480_000 40 ∷ []) ∷ (490_000, order 4 2 buy 490_000 25 ∷ []) ∷ [];
  sells =
      (500_000, order 0 1 sell 500_000 10 ∷ order 1 2 sell 500_000 20 ∷ [])
      ∷ (510_000, order 2 3 sell 510_000 30 ∷ [])
      ∷ [];
  next_seq = 5;
}

abbrev pub incoming : ℕ → ℕ → OrderSide → ℕ → ℕ → PlaceOrder
incoming id maker side price amount = record {
  market_id = market;
  position_id = 9;
  order_id = id;
  maker = addr maker;
  price = price;
  amount = amount;
  side = side;
  nonce = 0;
  deadline = 0;
}

pub sample-IsValid : IsValid sample
sample-IsValid = ground arith
