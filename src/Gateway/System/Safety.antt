-- ===== src/Gateway/System/Safety.antt =====
-- What every run of the gateway keeps true.
use omniscient.Prelude.{
  ◌<◌, ◌≡◌, ◌⊎◌, inl, inr, sym, subst, ap, ◌∙◌, true, List, [], ◌∷◌, ◌++◌, All, All-append, All-map,
  any, ◌==◌, u64_mod,
}
use omniscient.Prelude.Result.{Result}
use omniscient.Shared.Domain.{OrderId}
use omniscient.Shared.Hex.{Text, HexCodec}
use omniscient.Shared.Signing.{Crypto}
use omniscient.Store.{OrderRow, Tables}
use omniscient.Gateway.Book.{MatchResult}
use omniscient.Gateway.Engine.{
  MatchCommand, place_order, cancel_order, cancel_all, shutdown, run_matcher,
}
use omniscient.Gateway.Engine.Run.{AllBooks, Fits}
use omniscient.Gateway.Engine.Invariant.{IsHealthy, run_matcher-IsHealthy}
use omniscient.Gateway.Service.{
  OrderError, Settings, State, place_command, accept_order, cancel_by_id, process_fills,
  process_match_result,
}
use omniscient.Gateway.Api.{post_reconcile}
use omniscient.Gateway.System.{
  World, receive_command, receive_result, Step, submit, cancel, reconcile, match, store, Reach,
  here, next,
}
use omniscient.Gateway.System.Stored.{IsStored}
use omniscient.Gateway.System.Growth.{
  IsGrown, accept_order-IsGrown, accept_order-queue, cancel_by_id-IsGrown, cancel_by_id-queue,
  post_reconcile-orders, process_fills-IsGrown, process_fills-queue,
}

-- An order that is to be placed has a u64 amount and is stored.
abbrev pub IsBacked : Tables → MatchCommand → Type 0
IsBacked t (place_order c) = (c.amount < u64_mod) × IsStored c.order_id t
IsBacked t (cancel_order p id) = Unit
IsBacked t (cancel_all m p a) = Unit
IsBacked t shutdown = Unit

-- All books are valid and uncrossed, and every order in the queue is backed.
pub record IsSafe (w : World) : Type 0 where
  pub books_healthy : AllBooks IsHealthy w.books
  pub queue_backed : All (IsBacked w.service.db.tables) w.service.queue

IsBacked-IsGrown : (t t' : Tables) (c : MatchCommand) → IsGrown t t' → IsBacked t c → IsBacked t' c
IsBacked-IsGrown t t' (place_order c) g b = (b.0, g c.order_id b.1)
IsBacked-IsGrown t t' (cancel_order p id) g b = tt
IsBacked-IsGrown t t' (cancel_all m p a) g b = tt
IsBacked-IsGrown t t' shutdown g b = tt

IsBacked-Fits : (t : Tables) (c : MatchCommand) → IsBacked t c → Fits (c, true)
IsBacked-Fits t (place_order c) b = b.0
IsBacked-Fits t (cancel_order p id) b = tt
IsBacked-Fits t (cancel_all m p a) b = tt
IsBacked-Fits t shutdown b = tt

All-IsGrown :
    (t t' : Tables) (cs : List MatchCommand)
    → IsGrown t t'
    → All (IsBacked t) cs
    → All (IsBacked t') cs
All-IsGrown t t' cs g a = All-map (IsBacked t) (IsBacked t') (λ c. IsBacked-IsGrown t t' c g) cs a

-- A queue that grows by one backed command at most.
All-IsBacked-add :
    (t t' : Tables) (cs cs' : List MatchCommand) (c : MatchCommand)
    → IsGrown t t'
    → All (IsBacked t) cs
    → (cs' ≡ cs) ⊎ ((cs' ≡ cs ++ c ∷ []) × IsBacked t' c)
    → All (IsBacked t') cs'
All-IsBacked-add t t' cs cs' c g a (inl e) =
    subst (All (IsBacked t')) (sym e) (All-IsGrown t t' cs g a)
All-IsBacked-add t t' cs cs' c g a (inr e) =
    subst (All (IsBacked t')) (sym e.0)
      (All-append (IsBacked t') cs (c ∷ []) (All-IsGrown t t' cs g a) (e.1, tt))

receive_command-IsSafe : (w : World) → IsSafe w → IsSafe (receive_command w)
unfolding receive_command
receive_command-IsSafe w s = by_queue w.service.queue s.queue_backed
  where
    by_queue :
        (q : List MatchCommand)
        → All (IsBacked w.service.db.tables) q
        → IsSafe (elim q as (λ _. World) [
          | [] ↦ w
          | c ∷ cmds ↦ record {
            books = (run_matcher ((c, true) ∷ []) w.books []).0;
            service = record (w.service) { queue = cmds };
            results = w.results ++ (run_matcher ((c, true) ∷ []) w.books []).1;
          }
        ])
    by_queue [] b = s
    by_queue (c ∷ cmds) b = record {
      books_healthy =
          run_matcher-IsHealthy ((c, true) ∷ []) w.books
            (IsBacked-Fits w.service.db.tables c b.0, tt) s.books_healthy;
      queue_backed = b.1;
    }

receive_result-IsSafe : (hex : HexCodec) (w : World) → IsSafe w → IsSafe (receive_result hex w)
unfolding receive_result process_match_result
receive_result-IsSafe hex w s = by_results w.results
  where
    after : MatchResult → State
    after r = process_fills hex r.market_id r.fills w.service

    by_results :
        (rs : List MatchResult)
        → IsSafe (elim rs as (λ _. World) [
          | [] ↦ w
          | r ∷ rs ↦ record w { service = after r; results = rs }
        ])
    by_results [] = s
    by_results (r ∷ rs) = record {
      books_healthy = s.books_healthy;
      queue_backed =
          subst (All (IsBacked (after r).db.tables))
            (sym (process_fills-queue hex r.market_id r.fills w.service))
            (All-IsGrown w.service.db.tables (after r).db.tables w.service.queue
              (process_fills-IsGrown hex r.market_id r.fills w.service) s.queue_backed);
    }

module _ (hex : HexCodec) (crypto : Crypto) (settings : Settings) (secret : Text) where
  Step-IsSafe : {u v : World} → Step hex crypto settings secret u v → IsSafe u → IsSafe v
  Step-IsSafe (submit w now order_id signed market_id f) s = record {
    books_healthy = s.books_healthy;
    queue_backed =
        All-IsBacked-add w.service.db.tables r.1.db.tables w.service.queue r.1.queue
          (place_command order_id signed market_id)
          (accept_order-IsGrown crypto settings now order_id signed market_id w.service)
          s.queue_backed
          (elim (accept_order-queue crypto settings now order_id signed market_id w.service) [
            | inl e ↦ inl e
            | inr e ↦ inr (e.0, (f, e.1))
          ]);
  }
    where
      r : Result OrderId OrderError × State
      r = accept_order crypto settings now order_id signed market_id w.service
  Step-IsSafe (cancel w order_id position) s = record {
    books_healthy = s.books_healthy;
    queue_backed =
        All-IsBacked-add w.service.db.tables (cancel_by_id order_id position w.service).1.db.tables
          w.service.queue (cancel_by_id order_id position w.service).1.queue
          (cancel_order position order_id) (cancel_by_id-IsGrown order_id position w.service)
          s.queue_backed
          (elim (cancel_by_id-queue order_id position w.service) [
            | inl e ↦ inl e
            | inr e ↦ inr (e, tt)
          ]);
  }
  Step-IsSafe (reconcile w header body) s = record {
    books_healthy = s.books_healthy;
    queue_backed =
        All-IsGrown w.service.db.tables
          (post_reconcile hex secret header body w.service.db).1.tables w.service.queue
          (λ id j.
            ap (any (λ (o : OrderRow). o.order_id == id))
              (post_reconcile-orders hex secret header body w.service.db)
            ∙ j)
          s.queue_backed;
  }
  Step-IsSafe (match w) s = receive_command-IsSafe w s
  Step-IsSafe (store w) s = receive_result-IsSafe hex w s

-- In every run of the gateway, in any order of requests, commands and results, whatever the server
-- and the topic refuse and the requests hold, with u64 amounts: if all books were valid and
-- uncrossed and every order in the matcher's queue was stored and had a u64 amount, then it is so in
-- the end.
pub Reach-IsSafe :
    (hex : HexCodec) (crypto : Crypto) (settings : Settings) (secret : Text) {u v : World}
    → IsSafe u
    → Reach hex crypto settings secret u v
    → IsSafe v
Reach-IsSafe hex crypto settings secret s here = s
Reach-IsSafe hex crypto settings secret s (next r st) =
    Step-IsSafe hex crypto settings secret st (Reach-IsSafe hex crypto settings secret s r)
