-- ===== src/Gateway/System.antt =====
-- backend/gateway/src/main.rs: what the handlers, the matcher thread and the task of the results do
-- to what they share, one handler, command or result at a time.
pub mod Stored
pub mod Growth
pub mod Safety
pub mod OnHold
pub mod Covered
pub mod Ends
pub mod Holding
pub mod Solvency
pub mod Requests
use omniscient.Prelude.{ℕ, ◌<◌, ◌≡◌, Bool, true, Option, List, [], ◌∷◌, ◌++◌, u64_mod}
use omniscient.Prelude.Result.{Result, ok, err}
use omniscient.Shared.Domain.{MarketId, OrderId}
use omniscient.Shared.Hex.{Text, HexCodec}
use omniscient.Shared.Order.{SignedOrder}
use omniscient.Shared.Signing.{Crypto}
use omniscient.Store.{Db, Error}
use omniscient.Gateway.Book.{MatchResult}
use omniscient.Gateway.Engine.{MatchCommand, Books, run_matcher}
use omniscient.Gateway.Service.{
  Settings, State, accept_order, cancel_by_id, process_match_result, rebuild_books,
}
use omniscient.Gateway.Api.{ReconcilePayload, post_reconcile}

-- The matcher's books, the state that the handlers share, and the results that were sent and are not
-- stored yet.
pub record World : Type 0 where
  pub books : Books
  pub service : State
  pub results : List MatchResult

-- The matcher receives the first command, if there is one.
unfoldable pub receive_command : World → World
receive_command w = elim w.service.queue [
  | [] ↦ w
  | c ∷ cmds ↦
      let r = run_matcher ((c, true) ∷ []) w.books [] in
      record {
        books = r.0;
        service = record (w.service) { queue = cmds };
        results = w.results ++ r.1;
      }
]

-- The task of the results receives the first result, if there is one.
unfoldable pub receive_result : HexCodec → World → World
receive_result hex w = elim w.results [
  | [] ↦ w
  | r ∷ rs ↦ record w { service = process_match_result hex r w.service; results = rs }
]

module _ (hex : HexCodec) (crypto : Crypto) (settings : Settings) (secret : Text) where
  -- The amount of an order is a u64.
  pub data Step : World → World → Type 0 where
    submit :
        (w : World) (now : ℕ) (order_id : OrderId) (signed : SignedOrder) (market_id : MarketId)
        → signed.order.amount < u64_mod
        → Step w (record w {
          service = (accept_order crypto settings now order_id signed market_id w.service).1;
        })
    cancel :
        (w : World) (order_id : OrderId) (position_id : ℕ)
        → Step w (record w { service = (cancel_by_id order_id position_id w.service).1 })
    reconcile :
        (w : World) (header : Option Text) (body : ReconcilePayload)
        → Step w (record w {
          service = record (w.service) {
            db = (post_reconcile hex secret header body w.service.db).1;
          };
        })
    match : (w : World) → Step w (receive_command w)
    store : (w : World) → Step w (receive_result hex w)

  pub data Reach (w : World) : World → Type 0 where
    here : Reach w w
    next : {u v : World} → Reach w u → Step u v → Reach w v
