-- ===== src/Indexer/Pipeline/Once.antt =====
-- A log has its effect on the balances, the markets, the users and the orders at most once.
use omniscient.Prelude.{
  ℕ, ◌≡◌, ◌≢◌, ◌⊎◌, inl, inr, refl, ap, ◌∙◌, arith, Bool, true, false, ◌&&◌, Option, none, some,
  List, [], ◌∷◌, ltb, ◌==◌, if◌then◌else◌, get_elem?,
}
use omniscient.Prelude.Result.{Result, ok, err}
use omniscient.Shared.Domain.{bytes_eq, bytes_eq_iff}
use omniscient.Store.{
  block_number_field, domain, Bytes, User, Market, Balance, OrderRow, Tables, Db, Sql, execute,
  fetch, transaction, ◌>>=◌, ◌>>◌, Error,
}
use omniscient.Store.Table.{any-upsert}
use omniscient.Indexer.{Log, HandlerCtx, Alloy, i64_limit}
use omniscient.Indexer.Events.{dispatch}
use omniscient.Indexer.Events.Idle.{IsIdle, dispatch-IsIdle}
use omniscient.Indexer.Pipeline.{
  hash_of, index_of, is_entry, is_indexed, put_checkpoint, put_log, record_log, index_log,
  index_new_log, process_log, zeroes, unwrap_or,
}

-- What the events are about.
abbrev pub content : Tables → List User × List Market × List Balance × List OrderRow
content t = (t.users, t.markets, t.balances, t.orders)

is_indexed-put_log :
    (block : ℕ) (hash : Bytes) (index : ℕ) (address topic0 : Bytes) (t : Tables)
    → is_indexed hash index (put_log block hash index address topic0 t) ≡ true
unfolding is_indexed put_log
is_indexed-put_log block hash index address topic0 t =
    any-upsert (is_entry hash index)
      (record {
        block_number = block;
        tx_hash = hash;
        log_index = index;
        contract_address = address;
        topic0 = topic0;
      })
      (λ l. l) t.logs itself (λ l h. h)
  where
    itself : (bytes_eq hash hash && index == index) ≡ true
    itself = ground (arith, bytes_eq_iff hash hash)

module _ (alloy : Alloy) (addr_bytes : Bytes) (log : Log) where
  process_log-indexed :
      (db : Db)
      → is_indexed (hash_of log) (index_of log) db.tables ≡ true
      → (process_log alloy addr_bytes log db).tables ≡ db.tables
  unfolding process_log index_new_log fetch
  process_log-indexed db h = ground arith

  execute-ok :
      (f : Tables → Tables) (db : Db)
      → (execute f db).0 ≡ ok tt
      → (execute f db).1.tables ≡ f db.tables
  unfolding execute
  execute-ok f db h = ground arith

  record_log-effect :
      (block : ℕ) (db : Db)
      → (record_log addr_bytes block log true db).0 ≡ ok tt
      → is_indexed (hash_of log) (index_of log) (record_log addr_bytes block log true db).1.tables
        ≡ true
  unfolding record_log
  record_log-effect block db h =
      let e =
        execute-ok
          (put_log block (hash_of log) (index_of log) addr_bytes
            (unwrap_or (get_elem? log.topics 0) []))
          db in
      let i =
        is_indexed-put_log block (hash_of log) (index_of log) addr_bytes
          (unwrap_or (get_elem? log.topics 0) []) db.tables in
      ground arith

  IsRecorded : Sql (Unit {0}) → Type 0
  IsRecorded m =
      (db : Db)
      → (m db).0 ≡ ok tt
      → let t = (m db).1.tables in
        (content t ≡ content db.tables) ⊎ (is_indexed (hash_of log) (index_of log) t ≡ true)

  handled-IsRecorded :
      (block : ℕ) (d : Sql Bool) → IsIdle d → IsRecorded (d >>= record_log addr_bytes block log)
  unfolding record_log IsIdle IsRecorded
  handled-IsRecorded block d i db h = by_result (d db) (i db) h
    where
      by_result :
          (r : Result Bool Error × Db)
          → (r.0 ≡ ok false → r.1 ≡ db)
          → let s = elim r.0 as (λ _. Result (Unit {0}) Error × Db) [
            | ok a ↦ record_log addr_bytes block log a r.1
            | err e ↦ (err e, r.1)
          ] in
            s.0 ≡ ok tt
            → (content s.1.tables ≡ content db.tables)
              ⊎ (is_indexed (hash_of log) (index_of log) s.1.tables ≡ true)
      by_result (ok true, db') i h = inr (record_log-effect block db' h)
      by_result (ok false, db') i h = inl (ap (λ d. content d.tables) (i refl))
      by_result (err e, db') i h = ground arith

  before-IsRecorded :
      (f : Tables → Tables) (m : Sql (Unit {0}))
      → ((t : Tables) → content (f t) ≡ content t)
      → IsRecorded m
      → IsRecorded (execute f >> m)
  unfolding IsRecorded
  before-IsRecorded f m k i db h = by_result (execute f db) (execute-ok f db) h
    where
      by_result :
          (r : Result (Unit {0}) Error × Db)
          → (r.0 ≡ ok tt → r.1.tables ≡ f db.tables)
          → let s = elim r.0 as (λ _. Result (Unit {0}) Error × Db) [
            | ok a ↦ m r.1
            | err e ↦ (err e, r.1)
          ] in
            s.0 ≡ ok tt
            → (content s.1.tables ≡ content db.tables)
              ⊎ (is_indexed (hash_of log) (index_of log) s.1.tables ≡ true)
      by_result (ok a, db') e h = elim (i db' h) [
        | inl c ↦ inl (c ∙ ap content (e refl) ∙ k db.tables)
        | inr c ↦ inr c
      ]
      by_result (err e, db') i h = ground arith

  after-IsRecorded : (m : Sql (Unit {0})) → IsRecorded m → IsRecorded (m >> execute (λ t. t))
  unfolding IsRecorded
  after-IsRecorded m i db h = by_result (m db) (i db) h
    where
      by_result :
          (r : Result (Unit {0}) Error × Db)
          → (r.0 ≡ ok tt
              → (content r.1.tables ≡ content db.tables)
                ⊎ (is_indexed (hash_of log) (index_of log) r.1.tables ≡ true))
          → let s = elim r.0 as (λ _. Result (Unit {0}) Error × Db) [
            | ok a ↦ execute (λ t. t) r.1
            | err e ↦ (err e, r.1)
          ] in
            s.0 ≡ ok tt
            → (content s.1.tables ≡ content db.tables)
              ⊎ (is_indexed (hash_of log) (index_of log) s.1.tables ≡ true)
      by_result (ok a, db') e h = rw (execute-ok (λ t. t) db' h) (e refl)
      by_result (err e, db') i h = ground arith

  if-IsRecorded :
      (b : Bool) (m : Sql (Unit {0})) (e : Error)
      → IsRecorded m
      → IsRecorded (λ db. if b then m db else (err e, db))
  unfolding IsRecorded
  if-IsRecorded true m e i = i
  if-IsRecorded false m e i = λ db h. ground arith

  index_log-IsRecorded : (block : ℕ) → IsRecorded (index_log alloy addr_bytes block log)
  unfolding index_log put_checkpoint
  index_log-IsRecorded block =
      let ctx : HandlerCtx = record { block_number = block; addr_bytes = addr_bytes } in
      if-IsRecorded (ltb block i64_limit)
        (execute (put_checkpoint block (unwrap_or log.block_hash (zeroes 32)))
          >> dispatch alloy log ctx
          >>= record_log addr_bytes block log)
        (domain block_number_field)
        (before-IsRecorded (put_checkpoint block (unwrap_or log.block_hash (zeroes 32)))
          (dispatch alloy log ctx >>= record_log addr_bytes block log) (λ t. refl)
          (handled-IsRecorded block (dispatch alloy log ctx) (dispatch-IsIdle alloy log ctx)))

  -- Whatever comes of the transaction.
  transaction-effect :
      (m : Sql (Unit {0})) (db : Db)
      → IsRecorded m
      → let t = (transaction m db).1.tables in
        (content t ≡ content db.tables) ⊎ (is_indexed (hash_of log) (index_of log) t ≡ true)
  unfolding transaction IsRecorded
  transaction-effect m db i =
      let all : Sql (Unit {0}) = execute (λ t. t) >> m >> execute (λ t. t) in
      by_result (all db)
        (before-IsRecorded (λ t. t) (m >> execute (λ t. t)) (λ t. refl) (after-IsRecorded m i) db)
    where
      by_result :
          (r : Result (Unit {0}) Error × Db)
          → (r.0 ≡ ok tt
              → (content r.1.tables ≡ content db.tables)
                ⊎ (is_indexed (hash_of log) (index_of log) r.1.tables ≡ true))
          → let s = elim r.0 as (λ _. Result (Unit {0}) Error × Db) [
            | ok u ↦ r
            | err e ↦ (err e, record (r.1) { tables = db.tables })
          ] in
            (content s.1.tables ≡ content db.tables)
            ⊎ (is_indexed (hash_of log) (index_of log) s.1.tables ≡ true)
      by_result (ok u, db') e = e refl
      by_result (err e, db') i = inl refl

  index_new_log-effect :
      (block : ℕ) (ts : Tables) (rs : List Bool)
      → let t =
          (index_new_log alloy addr_bytes block log
            (record { tables = ts; refusals = rs })).1.tables in
        (content t ≡ content ts) ⊎ (is_indexed (hash_of log) (index_of log) t ≡ true)
  unfolding index_new_log fetch
  index_new_log-effect block ts [] =
      let e =
        transaction-effect (index_log alloy addr_bytes block log)
          (record { tables = ts; refusals = [] }) (index_log-IsRecorded block) in
      ground arith
  index_new_log-effect block ts (true ∷ rs) = ground arith
  index_new_log-effect block ts (false ∷ rs) =
      let e =
        transaction-effect (index_log alloy addr_bytes block log)
          (record { tables = ts; refusals = rs }) (index_log-IsRecorded block) in
      ground arith

  process_log-effect :
      (db : Db)
      → let t = (process_log alloy addr_bytes log db).tables in
        (content t ≡ content db.tables) ⊎ (is_indexed (hash_of log) (index_of log) t ≡ true)
  unfolding process_log
  process_log-effect db = by_number log.block_number
    where
      by_number :
          (o : Option ℕ)
          → let t : Tables =
              (elim o as (λ _. Db) [
                | none ↦ db
                | some block ↦ (index_new_log alloy addr_bytes block log db).1
              ]).tables in
            (content t ≡ content db.tables) ⊎ (is_indexed (hash_of log) (index_of log) t ≡ true)
      by_number none = inl refl
      by_number (some block) = index_new_log-effect block db.tables db.refusals

  -- Whatever the server refuses, then and later: if handling a log has changed the users, the
  -- markets, the balances or the orders, then handling it again changes no table.
  pub process_log-once :
      (db : Db)
      → let after = process_log alloy addr_bytes log db in
        content after.tables ≢ content db.tables
        → (refusals : List Bool)
        → (process_log alloy addr_bytes log (record after { refusals = refusals })).tables
          ≡ after.tables
  process_log-once db h refusals =
      process_log-indexed (record (process_log alloy addr_bytes log db) { refusals = refusals })
        (elim (process_log-effect db) [ inl e ↦ absurd (h e) | inr i ↦ i ])
