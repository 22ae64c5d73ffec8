-- ===== src/Gateway/System/Solvency.antt =====
-- In every run of the gateway the holds are covered by what is on hold.
use omniscient.Prelude.{
  ℕ, ◌-◌, ltb, if◌then◌else◌, ◌≡◌, ◌⊎◌, inl, inr, refl, sym, subst, ◌∙◌, Bool, true, false, Option,
  none, List, [], ◌∷◌, arith,
}
use omniscient.Prelude.Integers.{add_nat}
use omniscient.Prelude.Result.{Result, ok, err}
use omniscient.Shared.Domain.{MarketId, OrderId, bytes_eq_iff}
use omniscient.Shared.Hex.{Text, HexCodec, address_from_hex}
use omniscient.Shared.Order.{usdc, SignedOrder}
use omniscient.Shared.Signing.{Crypto}
use omniscient.Store.{Bytes, Balance, Tables, Db, Sql, execute, transaction, ◌>>◌}
use omniscient.Store.Keeps.{Keeps, execute-Keeps, then-Keeps, transaction-Keeps}
use omniscient.Indexer.{i64_limit}
use omniscient.Indexer.Custody.{is_usdc_of, usdc_row, ensure_user_row, credit_usdc}
use omniscient.Gateway.Book.{Fill, MatchResult}
use omniscient.Gateway.Infra.{i64_or_zero, is_account, update_order_filled, publish_match}
use omniscient.Gateway.Service.{
  Settings, State, store_order, try_send, accept_order, cancel_by_id, process_fills,
  process_match_result,
}
use omniscient.Gateway.Service.Cancellation.{cancel_by_id_lem}
use omniscient.Gateway.Api.{ReconcilePayload, post_reconcile}
use omniscient.Gateway.System.{
  World, receive_command, receive_result, Step, submit, cancel, reconcile, match, store, Reach,
  here, next,
}
use omniscient.Gateway.System.OnHold.{
  Account, of_account, asset_eq-of, position_eq-of, on_hold-upsert, count-upsert,
}
use omniscient.Gateway.System.Covered.{IsCovered, IsCovered-same}
use omniscient.Gateway.System.Ends.{Ends}
use omniscient.Gateway.System.Holding.{store_order-IsCovered}

-- The rows in conflict with a credit are those of the account.
is_usdc_of-account :
    (user : Bytes) (amount block : ℕ) (a : Account) (b : Balance)
    → of_account a (usdc_row user amount block) ≡ true
    → is_usdc_of user b ≡ of_account a b
unfolding is_usdc_of is_account
is_usdc_of-account user amount block a b h =
    let i = bytes_eq_iff user a.maker.bytes in
    let j = asset_eq-of usdc a.asset b.asset_type in
    let k = position_eq-of none a.position b.position_id in ground arith

credit_usdc-IsCovered :
    (user : Bytes) (amount block : ℕ) (t : Tables)
    → IsCovered t
    → IsCovered (credit_usdc user amount block t)
unfolding credit_usdc is_account
credit_usdc-IsCovered user amount block t v = record {
  one_row = λ a.
      count-upsert (of_account a) (is_usdc_of user) (usdc_row user amount block) credit t.balances
        (v.one_row a) (λ b. refl) (λ h b. is_usdc_of-account user amount block a b h);
  covered = λ a.
      let e =
        on_hold-upsert a (is_usdc_of user) (usdc_row user amount block) credit t.balances refl
          (λ b. (refl, refl)) in
      let h = v.covered a in omega arith;
}
  where
    credit : Balance → Balance
    credit b = record b {
      available_amount = add_nat b.available_amount amount;
      finalized_block_number = block;
    }

Ends-IsCovered :
    {E : Type 0} (r : Result (Unit {0}) E × Db) → Ends IsCovered IsCovered r → IsCovered r.1.tables
Ends-IsCovered (ok u, db) h = h
Ends-IsCovered (err e, db) h = h

module _ (crypto : Crypto) (settings : Settings) (now : ℕ) (order_id : OrderId)
    (signed : SignedOrder) (market_id : MarketId) (s : State) where
  accept_order_db :
      let db' = (accept_order crypto settings now order_id signed market_id s).1.db in
      (db' ≡ s.db) ⊎ (db' ≡ (store_order order_id signed market_id s.db).1)
  unfolding accept_order try_send
  accept_order_db = ground arith

  accept_order-IsCovered :
      IsCovered s.db.tables
      → IsCovered (accept_order crypto settings now order_id signed market_id s).1.db.tables
  accept_order-IsCovered v = elim accept_order_db [
    | inl e ↦ subst (λ (db : Db). IsCovered db.tables) (sym e) v
    | inr e ↦
        subst (λ (db : Db). IsCovered db.tables) (sym e)
          (Ends-IsCovered (store_order order_id signed market_id s.db)
            (store_order-IsCovered order_id signed market_id s.db v))
  ]

update_order_filled_same :
    (id : OrderId) (delta : ℕ) (full : Bool) (db : Db)
    → let t' = (update_order_filled id delta full db).1.tables in
      (t'.balances ≡ db.tables.balances) × (t'.holds ≡ db.tables.holds)
unfolding update_order_filled execute
update_order_filled_same id delta full db = ground arith

process_fills_same :
    (hex : HexCodec) (market_id : MarketId) (fs : List Fill) (s : State)
    → let t' = (process_fills hex market_id fs s).db.tables in
      (t'.balances ≡ s.db.tables.balances) × (t'.holds ≡ s.db.tables.holds)
unfolding process_fills
process_fills_same hex market_id [] s = (refl, refl)
process_fills_same hex market_id (f ∷ fs) s =
    let db = (update_order_filled f.maker_order_id f.amount true s.db).1 in
    let db' = (update_order_filled f.taker_order_id f.amount false db).1 in
    let i =
      process_fills_same hex market_id fs
        (record s { topic = (publish_match hex market_id f s.topic).1; db = db' }) in
    let a = update_order_filled_same f.maker_order_id f.amount true s.db in
    let b = update_order_filled_same f.taker_order_id f.amount false db in
    (i.0 ∙ b.0 ∙ a.0, i.1 ∙ b.1 ∙ a.1)

receive_command_db : (w : World) → (receive_command w).service.db ≡ w.service.db
unfolding receive_command
receive_command_db w = ground arith

receive_command-IsCovered :
    (w : World) → IsCovered w.service.db.tables → IsCovered (receive_command w).service.db.tables
receive_command-IsCovered w c =
    let e = receive_command_db w in subst (λ (db : Db). IsCovered db.tables) (sym e) c

receive_result-IsCovered :
    (hex : HexCodec) (w : World)
    → IsCovered w.service.db.tables
    → IsCovered (receive_result hex w).service.db.tables
unfolding receive_result process_match_result
receive_result-IsCovered hex w c = by_results w.results
  where
    by_results :
        (rs : List MatchResult)
        → IsCovered
            (elim rs as (λ _. World) [
              | [] ↦ w
              | r ∷ rs ↦ record w {
                service = process_fills hex r.market_id r.fills w.service;
                results = rs;
              }
            ]).service.db.tables
    by_results [] = c
    by_results (r ∷ rs) =
        let e = process_fills_same hex r.market_id r.fills w.service in
        IsCovered-same w.service.db.tables
          (process_fills hex r.market_id r.fills w.service).db.tables e.0 e.1 c

-- The tables after a reconcile request that is read.
credited : Bytes → ℕ → ℕ → Sql (Unit {0})
credited user deposit block =
    transaction (execute (ensure_user_row user) >> execute (credit_usdc user deposit block))

credited-IsCovered :
    (user : Bytes) (deposit block : ℕ) → Keeps IsCovered (credited user deposit block)
unfolding credited ensure_user_row
credited-IsCovered user deposit block =
    transaction-Keeps IsCovered
      (execute (ensure_user_row user) >> execute (credit_usdc user deposit block))
      (then-Keeps IsCovered (ensure_user_row user) (execute (credit_usdc user deposit block))
        (λ t v. IsCovered-same t (ensure_user_row user t) refl refl v)
        (execute-Keeps IsCovered (credit_usdc user deposit block)
          (credit_usdc-IsCovered user deposit block)))

-- The bytes of a text that is an address.
abbrev bytes_of : HexCodec → Text → Bytes
bytes_of hex text = elim (address_from_hex hex text) [ err e ↦ [] | ok user ↦ user.bytes ]

post_reconcile_db :
    (hex : HexCodec) (secret : Text) (header : Option Text) (body : ReconcilePayload) (db : Db)
    → let db' = (post_reconcile hex secret header body db).1 in
      (db' ≡ db)
      ⊎ (db'
          ≡ (credited
              (bytes_of hex body.user)
              (if ltb body.deposit i64_limit then body.deposit else i64_limit - 1)
              (i64_or_zero body.block_number)
              db).1)
unfolding post_reconcile credited
post_reconcile_db hex secret header body db = ground arith

module _ (hex : HexCodec) (crypto : Crypto) (settings : Settings) (secret : Text) where
  post_reconcile-IsCovered :
      (header : Option Text) (body : ReconcilePayload) (db : Db)
      → IsCovered db.tables
      → IsCovered (post_reconcile hex secret header body db).1.tables
  post_reconcile-IsCovered header body db v = elim (post_reconcile_db hex secret header body db) [
    | inl e ↦ subst (λ (db : Db). IsCovered db.tables) (sym e) v
    | inr e ↦
        subst (λ (db : Db). IsCovered db.tables) (sym e)
          (credited-IsCovered (bytes_of hex body.user)
            (if ltb body.deposit i64_limit then body.deposit else i64_limit - 1)
            (i64_or_zero body.block_number) db v)
  ]

  Step-IsCovered :
      {u v : World}
      → Step hex crypto settings secret u v
      → IsCovered u.service.db.tables
      → IsCovered v.service.db.tables
  Step-IsCovered (submit w now order_id signed market_id f) c =
      accept_order-IsCovered crypto settings now order_id signed market_id w.service c
  Step-IsCovered (cancel w order_id position) c =
      let l = cancel_by_id_lem order_id position w.service in
      IsCovered-same w.service.db.tables (cancel_by_id order_id position w.service).1.db.tables l.4
        l.5 c
  Step-IsCovered (reconcile w header body) c = post_reconcile-IsCovered header body w.service.db c
  Step-IsCovered (match w) c = receive_command-IsCovered w c
  Step-IsCovered (store w) c = receive_result-IsCovered hex w c

-- In every run of the gateway, in any order of requests, commands and results, whatever the server
-- and the topic refuse and the requests hold, also if releasing collateral fails: if no account had
-- more than one row and its holds came to no more than what it had on hold, then it is so in the end.
pub Reach-IsCovered :
    (hex : HexCodec) (crypto : Crypto) (settings : Settings) (secret : Text) {u v : World}
    → IsCovered u.service.db.tables
    → Reach hex crypto settings secret u v
    → IsCovered v.service.db.tables
Reach-IsCovered hex crypto settings secret c here = c
Reach-IsCovered hex crypto settings secret c (next r st) =
    Step-IsCovered hex crypto settings secret st (Reach-IsCovered hex crypto settings secret c r)
