-- ===== src/Gateway/Api/Reconcile.antt =====
-- What a reconcile request does to the balances.
use omniscient.Prelude.{
  ◌<◌, ◌≡◌, ◌≢◌, ◌⊎◌, inl, inr, Bool-cases, refl, Option, none, some, [], arith,
}
use omniscient.Prelude.Integers.{pos, add_nat}
use omniscient.Prelude.Result.{ok, err}
use omniscient.Shared.Domain.{Address, bytes_eq, bytes_eq_iff}
use omniscient.Shared.Hex.{Text, HexCodec, address_from_hex}
use omniscient.Store.{Bytes, Db, execute, transaction}
use omniscient.Indexer.{i64_limit}
use omniscient.Indexer.Custody.{ensure_user_row, credit_usdc}
use omniscient.Indexer.Custody.Laws.{usdc_of, credit_usdc_lem}
use omniscient.Gateway.Infra.{i64_or_zero}
use omniscient.Gateway.Api.{unauthorized, ReconcilePayload, header_or_empty, post_reconcile}

module _ (hex : HexCodec) (secret : Text) (header : Option Text) (body : ReconcilePayload)
    (db : Db) where
  -- Without the secret the request is refused, and a request that fails changes no table, whatever
  -- the server refuses.
  pub post_reconcile-error :
      let r = post_reconcile hex secret header body db in
      (header_or_empty header ≢ secret → r.0 ≡ err unauthorized)
      × (r.0 ≢ ok tt → r.1.tables ≡ db.tables)
  unfolding post_reconcile transaction execute
  post_reconcile-error =
      let e = bytes_eq_iff (header_or_empty header) secret in (ground arith, ground arith)

  -- What changes the database has the secret.
  pub post_reconcile-secret :
      (header_or_empty header ≡ secret) ⊎ ((post_reconcile hex secret header body db).1 ≡ db)
  unfolding post_reconcile
  post_reconcile-secret =
      let e = bytes_eq_iff (header_or_empty header) secret in
      elim (Bool-cases (bytes_eq (header_or_empty header) secret)) [
        | inl h ↦ inl (e.0 h)
        | inr h ↦ inr (ground arith)
      ]

  run :
      (user : Address)
      → header_or_empty header ≡ secret
      → address_from_hex hex body.user ≡ ok user
      → body.deposit < i64_limit
      → db.refusals ≡ []
      → post_reconcile hex secret header body db ≡ (
        ok tt,
        record db {
          tables =
              credit_usdc user.bytes body.deposit
                (i64_or_zero body.block_number)
                (ensure_user_row user.bytes db.tables);
        },
      )
  unfolding post_reconcile transaction execute
  run user h a d n = let e = bytes_eq_iff (header_or_empty header) secret in ground arith

  -- With the secret, the text of an address and a deposit that is an i64, and if the server refuses
  -- nothing, the deposit is added to what the user has, or is all that it has if it had no row; what
  -- every other user has is as before.
  pub post_reconcile-usdc :
      (user : Address)
      → header_or_empty header ≡ secret
      → address_from_hex hex body.user ≡ ok user
      → body.deposit < i64_limit
      → db.refusals ≡ []
      → let r = post_reconcile hex secret header body db in
        (r.0 ≡ ok tt)
        × (usdc_of user.bytes r.1.tables
            ≡ some (elim (usdc_of user.bytes db.tables) [
              | none ↦ pos body.deposit
              | some x ↦ add_nat x body.deposit
            ]))
        × ((other : Bytes)
            → other ≢ user.bytes
            → usdc_of other r.1.tables ≡ usdc_of other db.tables)
  post_reconcile-usdc user h a d n =
      let c = credit_usdc_lem user.bytes body.deposit (i64_or_zero body.block_number) db.tables in
      rw (run user h a d n) (refl, c.0, c.1)
