-- ===== src/Indexer/Custody/Laws.antt =====
-- What the custody handlers do to the USDC balances, when the server refuses nothing.
use omniscient.Prelude.{
  ℕ, suc, zero, ◌≤◌, ◌<◌, ◌≡◌, refl, ap, arith, true, false, Option, none, some, [], ◌∷◌, length,
  get_elem?, ◌≢◌,
}
use omniscient.Prelude.Integers.{ℤ, pos, add_nat, sub_nat}
use omniscient.Prelude.Result.{ok}
use omniscient.Shared.Domain.{bytes_eq_iff}
use omniscient.Store.{Bytes, Balance, Tables, Db, execute}
use omniscient.Store.Table.{upsert, find, find-upsert, find-upsert_other}
use omniscient.Indexer.{Log, HandlerCtx, Alloy, slice, take, topic_address, i64_limit}
use omniscient.Indexer.Custody.{
  is_usdc_of, usdc_row, ensure_user_row, credit_usdc, debit_usdc, handle_deposited,
  handle_withdrawn, handle_forced_withdrawal_executed,
}

module _ {ℓ κ} {A : Type ℓ} {B : Type κ} where
  abbrev pub map_option : (A → B) → Option A → Option B
  map_option f none = none
  map_option f (some a) = some (f a)

-- The USDC that a user has available, when there is a row.
unfoldable pub usdc_of : Bytes → Tables → Option ℤ
usdc_of user t = map_option (λ b. b.available_amount) (find (is_usdc_of user) t.balances)

is_usdc_of-eq : (u v : Bytes) (b : Balance) → is_usdc_of u b ≡ true → is_usdc_of v b ≡ true → u ≡ v
unfolding is_usdc_of
is_usdc_of-eq u v b h k =
    ground (arith, bytes_eq_iff b.user_address u, bytes_eq_iff b.user_address v)

usdc_of-upsert :
    (user : Bytes) (amount block : ℕ) (f : ℤ → ℤ) (t : Tables)
    → map_option
        (λ b. b.available_amount)
        (find (is_usdc_of user) (
          upsert
            (is_usdc_of user)
            (usdc_row user amount block)
            (λ b. record b {
              available_amount = f b.available_amount;
              finalized_block_number = block;
            })
            t.balances))
      ≡ some (elim (usdc_of user t) [ none ↦ pos amount | some x ↦ f x ])
unfolding is_usdc_of usdc_of
usdc_of-upsert user amount block f t =
    rw
      (find-upsert (is_usdc_of user) (usdc_row user amount block)
        (λ b. record b { available_amount = f b.available_amount; finalized_block_number = block })
        t.balances (ground (arith, bytes_eq_iff user user)) (λ x h. h))
      (ground arith)

usdc_of-upsert_other :
    (user other : Bytes) (amount block : ℕ) (f : ℤ → ℤ) (t : Tables)
    → other ≢ user
    → find (is_usdc_of other) (
        upsert
          (is_usdc_of user)
          (usdc_row user amount block)
          (λ b. record b {
            available_amount = f b.available_amount;
            finalized_block_number = block;
          })
          t.balances)
      ≡ find (is_usdc_of other) t.balances
unfolding is_usdc_of
usdc_of-upsert_other user other amount block f t n =
    find-upsert_other (is_usdc_of user) (is_usdc_of other) (usdc_row user amount block)
      (λ b. record b { available_amount = f b.available_amount; finalized_block_number = block })
      t.balances (ground (arith, bytes_eq_iff user other))
      (λ b h. let r = is_usdc_of-other b h in (r, r))
  where
    is_usdc_of-other : (b : Balance) → is_usdc_of user b ≡ true → is_usdc_of other b ≡ false
    is_usdc_of-other b h =
        ground (arith, bytes_eq_iff b.user_address user, bytes_eq_iff b.user_address other)

-- A credit adds the amount to what the user has, if anything, and leaves the other users alone.
pub credit_usdc_lem :
    (user : Bytes) (amount block : ℕ) (t : Tables)
    → let t' = credit_usdc user amount block (ensure_user_row user t) in
      (usdc_of user t'
        ≡ some (elim (usdc_of user t) [ none ↦ pos amount | some x ↦ add_nat x amount ]))
      × ((other : Bytes) → other ≢ user → usdc_of other t' ≡ usdc_of other t)
unfolding credit_usdc ensure_user_row usdc_of
credit_usdc_lem user amount block t = (
  usdc_of-upsert user amount block (λ x. add_nat x amount) t,
  λ other m.
      ap (map_option (λ b. b.available_amount))
        (usdc_of-upsert_other user other amount block (λ x. add_nat x amount) t m),
)

length-take : (n : ℕ) (xs : Bytes) → n ≤ length xs → length (take n xs) ≡ n
length-take zero xs h = refl
length-take (suc n) [] h = ground arith
length-take (suc n) (x ∷ xs) h = ap suc (length-take n xs (omega arith))

pub length-slice : (xs : Bytes) → 32 ≤ length xs → length (slice 0 32 xs) ≡ 32
unfolding slice
length-slice xs h = length-take 32 xs h

-- The number that a custody event carries.
unfoldable pub amount_of : Alloy → Log → ℕ
amount_of alloy log = alloy.from_be_bytes (slice 0 32 log.log_data)

module _ (alloy : Alloy) (log : Log) (ctx : HandlerCtx) (db : Db) (topic : Bytes)
    (h : get_elem? log.topics 1 ≡ some topic) (b : ctx.block_number < i64_limit)
    (n : db.refusals ≡ []) where
  handle_deposited_run :
      32 ≤ length log.log_data
      → handle_deposited alloy log ctx db ≡ (
        ok true,
        record db {
          tables =
              credit_usdc
                (topic_address topic)
                (amount_of alloy log)
                ctx.block_number
                (ensure_user_row (topic_address topic) db.tables);
        },
      )
  unfolding handle_deposited execute amount_of
  handle_deposited_run k = ground (arith, length-slice log.log_data k)

  -- If the server refuses nothing, a deposit with a second topic, 32 bytes of data and an i64 block
  -- number is handled; the account in the topic then has what it had and the amount, or the amount
  -- if it had no row, and what every other user has is as before.
  pub handle_deposited-usdc :
      32 ≤ length log.log_data
      → let r = handle_deposited alloy log ctx db in
        (r.0 ≡ ok true)
        × (usdc_of (topic_address topic) r.1.tables
            ≡ some (elim (usdc_of (topic_address topic) db.tables) [
              | none ↦ pos (amount_of alloy log)
              | some x ↦ add_nat x (amount_of alloy log)
            ]))
        × ((other : Bytes)
            → other ≢ topic_address topic
            → usdc_of other r.1.tables ≡ usdc_of other db.tables)
  handle_deposited-usdc k =
      let c =
        credit_usdc_lem (topic_address topic) (amount_of alloy log) ctx.block_number db.tables in
      rw (handle_deposited_run k) (refl, c.0, c.1)

  handle_withdrawn_run :
      64 ≤ length log.log_data
      → (handle_withdrawn alloy log ctx db ≡ (
        ok true,
        record db {
          tables =
              debit_usdc (topic_address topic) (amount_of alloy log) ctx.block_number db.tables;
        },
      ))
        × (handle_forced_withdrawal_executed alloy log ctx db ≡ handle_withdrawn alloy log ctx db)
  unfolding handle_withdrawn handle_forced_withdrawal_executed execute amount_of
  handle_withdrawn_run k =
      let l = length-slice log.log_data (omega arith) in (ground arith, ground arith)

  -- If the server refuses nothing, a withdrawal with a second topic, 64 bytes of data and an i64
  -- block number is handled, as a forced one would be. The account in the topic then has what it had
  -- less the amount, but if it had no row it has the amount itself; what every other user has is as
  -- before.
  pub handle_withdrawn-usdc :
      64 ≤ length log.log_data
      → let r = handle_withdrawn alloy log ctx db in
        (handle_forced_withdrawal_executed alloy log ctx db ≡ r)
        × (r.0 ≡ ok true)
        × (usdc_of (topic_address topic) r.1.tables
            ≡ some (elim (usdc_of (topic_address topic) db.tables) [
              | none ↦ pos (amount_of alloy log)
              | some x ↦ sub_nat x (amount_of alloy log)
            ]))
        × ((other : Bytes)
            → other ≢ topic_address topic
            → usdc_of other r.1.tables ≡ usdc_of other db.tables)
  unfolding debit_usdc usdc_of
  handle_withdrawn-usdc k =
      let run = handle_withdrawn_run k in
      (
        run.1,
        rw (run.0) refl,
        rw (run.0) (
            usdc_of-upsert (topic_address topic) (amount_of alloy log) ctx.block_number
              (λ x. sub_nat x (amount_of alloy log)) db.tables),
        λ other m. rw (run.0) (
            ap (map_option (λ b. b.available_amount)) (
              usdc_of-upsert_other (topic_address topic) other (amount_of alloy log)
                ctx.block_number (λ x. sub_nat x (amount_of alloy log)) db.tables m)),
      )
