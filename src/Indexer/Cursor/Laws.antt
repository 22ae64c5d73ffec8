-- ===== src/Indexer/Cursor/Laws.antt =====
-- What the start of the indexer does to the cursors.
use omniscient.Prelude.{
  ◌≡◌, ◌≢◌, ◌⊎◌, inl, inr, refl, sym, ap, ◌∙◌, subst, All, All-map, Bool, true, false, Option, none,
  some, List, [], ◌∷◌, arith,
}
use omniscient.Prelude.Result.{Result, ok, err}
use omniscient.Shared.Domain.{bytes_eq, bytes_eq_iff}
use omniscient.Store.{Bytes, Cursor, Tables, Db, Error, execute}
use omniscient.Store.Table.{find, find-upsert, find-upsert_other}
use omniscient.Store.Keeps.{Keeps, then-Keeps}
use omniscient.Indexer.Cursor.{
  Contracts, is_cursor, new_cursor, ensure_cursor, ensure_each, ensure_cursors,
}

abbrev pub row_of : Bytes → Tables → Option Cursor
row_of addr t = find (is_cursor addr) t.cursors

-- The row of a contract, or a new one.
abbrev pub row_or_new : Bytes → Tables → Cursor
row_or_new addr t = elim (row_of addr t) [ none ↦ new_cursor addr | some c ↦ c ]

row_of-ensure_cursor :
    (addr : Bytes) (t : Tables) → row_of addr (ensure_cursor addr t) ≡ some (row_or_new addr t)
unfolding ensure_cursor
row_of-ensure_cursor addr t =
    find-upsert (is_cursor addr) (new_cursor addr) (λ c. c) t.cursors
      ((bytes_eq_iff addr addr).1 refl) (λ c h. h)

row_of-ensure_cursor_other :
    (addr other : Bytes) (t : Tables)
    → other ≢ addr
    → row_of other (ensure_cursor addr t) ≡ row_of other t
unfolding ensure_cursor
row_of-ensure_cursor_other addr other t n =
    find-upsert_other (is_cursor addr) (is_cursor other) (new_cursor addr) (λ c. c) t.cursors
      (differ addr (λ e. n e)) (λ c h. (apart c h, apart c h))
  where
    differ : (a : Bytes) → (other ≡ a → ⊥) → bytes_eq a other ≡ false
    differ a m = let i = bytes_eq_iff a other in ground arith

    apart : (c : Cursor) → is_cursor addr c ≡ true → is_cursor other c ≡ false
    apart c h =
        let i = bytes_eq_iff c.contract_address addr in
        let j = bytes_eq_iff c.contract_address other in ground arith

-- Each row that is there stays, and a row that comes is new.
abbrev IsGrown : Tables → Tables → Type 0
IsGrown t t' =
    (addr : Bytes) → (row_of addr t' ≡ row_of addr t) ⊎ (row_of addr t' ≡ some (row_or_new addr t))

IsGrown-trans : (t u v : Tables) → IsGrown t u → IsGrown u v → IsGrown t v
IsGrown-trans t u v g h addr = let a = g addr in let b = h addr in ground arith

ensure_cursor-IsGrown : (addr : Bytes) (t : Tables) → IsGrown t (ensure_cursor addr t)
ensure_cursor-IsGrown addr t other = by_test (bytes_eq addr other) refl
  where
    by_test :
        (c : Bool)
        → bytes_eq addr other ≡ c
        → (row_of other (ensure_cursor addr t) ≡ row_of other t)
          ⊎ (row_of other (ensure_cursor addr t) ≡ some (row_or_new other t))
    by_test true e = inr (
        subst (λ (a : Bytes). row_of a (ensure_cursor addr t) ≡ some (row_or_new a t))
          ((bytes_eq_iff addr other).0 e) (row_of-ensure_cursor addr t))
    by_test false e = inl (
        row_of-ensure_cursor_other addr other t
          (λ n. let i = (bytes_eq_iff addr other).1 (sym n) in ground arith))

row_or_new-IsGrown :
    (t t' : Tables) (addr : Bytes) → IsGrown t t' → row_or_new addr t' ≡ row_or_new addr t
row_or_new-IsGrown t t' addr g = let a = g addr in ground arith

execute_ok :
    (f : Tables → Tables) (db : Db)
    → (execute f db).0 ≡ ok tt
    → (execute f db).1.tables ≡ f db.tables
unfolding execute
execute_ok f db h = ground arith

ensure_each-IsGrown : (addrs : List Bytes) (t : Tables) → Keeps (IsGrown t) (ensure_each addrs)
unfolding ensure_each
ensure_each-IsGrown [] t = λ db j. j
ensure_each-IsGrown (a ∷ addrs) t =
    then-Keeps (IsGrown t) (ensure_cursor a) (ensure_each addrs)
      (λ u g. IsGrown-trans t u (ensure_cursor a u) g (ensure_cursor-IsGrown a u))
      (ensure_each-IsGrown addrs t)

abbrev pub Ensured : Bytes → Tables → Tables → Type 0
Ensured addr t t' = row_of addr t' ≡ some (row_or_new addr t)

ensure_each-Ensured :
    (addrs : List Bytes) (db : Db)
    → (ensure_each addrs db).0 ≡ ok tt
    → All (λ a. Ensured a db.tables (ensure_each addrs db).1.tables) addrs
unfolding ensure_each
ensure_each-Ensured [] db h = tt
ensure_each-Ensured (a ∷ addrs) db h =
    by_result (execute (ensure_cursor a) db) (execute_ok (ensure_cursor a) db) h
      (ensure_each-Ensured addrs)
  where
    by_result :
        (r : Result (Unit {0}) Error × Db)
        → (r.0 ≡ ok tt → r.1.tables ≡ ensure_cursor a db.tables)
        → (elim r.0 as (λ _. Result (Unit {0}) Error × Db) [
          | ok u ↦ ensure_each addrs r.1
          | err e ↦ (err e, r.1)
        ]).0
          ≡ ok tt
        → ((db : Db)
            → (ensure_each addrs db).0 ≡ ok tt
            → All (λ b. Ensured b db.tables (ensure_each addrs db).1.tables) addrs)
        → All
            (λ b.
              Ensured b db.tables
                (elim r.0 as (λ _. Result (Unit {0}) Error × Db) [
                  | ok u ↦ ensure_each addrs r.1
                  | err e ↦ (err e, r.1)
                ]).1.tables)
            (a ∷ addrs)
    by_result (err e, db') f k rest = ground arith
    by_result (ok u, db') f k rest = (
      first,
      All-map (λ b. Ensured b db'.tables (ensure_each addrs db').1.tables)
          (λ b. Ensured b db.tables (ensure_each addrs db').1.tables)
          (λ b e. e ∙ ap some (row_or_new-IsGrown db.tables db'.tables b grown)) addrs (rest db' k),
    )
      where
        moved : db'.tables ≡ ensure_cursor a db.tables
        moved = f refl

        grown : IsGrown db.tables db'.tables
        grown = subst (IsGrown db.tables) (sym moved) (ensure_cursor-IsGrown a db.tables)

        first : Ensured a db.tables (ensure_each addrs db').1.tables
        first =
            let g = ensure_each-IsGrown addrs db'.tables db' (λ b. inl refl) a in
            let e = ap (row_of a) moved ∙ row_of-ensure_cursor a db.tables in ground arith

-- At the start the row of every contract that has one stays as it is, whatever the server refuses;
-- and if the start succeeds, each of the three contracts has the row that it had, or a new one.
pub ensure_cursors-Ensured :
    (config : Contracts) (db : Db)
    → let r = ensure_cursors config db in
      ((addr : Bytes) (c : Cursor)
        → row_of addr db.tables ≡ some c
        → row_of addr r.1.tables ≡ some c)
      × (r.0 ≡ ok tt
          → (row_of config.custody_addr r.1.tables
              ≡ some (row_or_new config.custody_addr db.tables))
            × (row_of config.settlement_exchange_addr r.1.tables
                ≡ some (row_or_new config.settlement_exchange_addr db.tables))
            × (row_of config.oracle_addr r.1.tables
                ≡ some (row_or_new config.oracle_addr db.tables)))
unfolding ensure_cursors
ensure_cursors-Ensured config db = (
  λ addr c h.
      let g = ensure_each-IsGrown (contracts config) db.tables db (λ b. inl refl) addr in
      ground arith,
  λ h. let e = ensure_each-Ensured (contracts config) db h in (e.0, e.1.0, e.1.1.0),
)
  where
    contracts : Contracts → List Bytes
    contracts config =
        config.custody_addr ∷ config.settlement_exchange_addr ∷ config.oracle_addr ∷ []
