-- ===== src/Store/Keeps.antt =====
-- What statements keep true of the tables, whatever the server refuses.
use omniscient.Prelude.{ℕ, ◌≡◌, ◌⊎◌, inl, inr, sym, subst, arith, Bool, true, false, if◌then◌else◌}
use omniscient.Prelude.Result.{Result, ok, err}
use omniscient.Store.{
  Tables, Db, Sql, Error, execute, execute_count, fetch, transaction, ◌>>=◌, ◌>>◌,
}

execute_tables :
    (f : Tables → Tables) (db : Db)
    → ((execute f db).1.tables ≡ f db.tables) ⊎ ((execute f db).1.tables ≡ db.tables)
unfolding execute
execute_tables f db = ground arith

execute_count_tables :
    (f : Tables → Tables × ℕ) (db : Db)
    → ((execute_count f db).1.tables ≡ (f db.tables).0)
      ⊎ ((execute_count f db).1.tables ≡ db.tables)
unfolding execute_count
execute_count_tables f db = ground arith

fetch_tables : {A : Type 0} (f : Tables → A) (db : Db) → (fetch f db).1.tables ≡ db.tables
unfolding fetch
fetch_tables f db = ground arith

module _ (J : Tables → Type 0) where
  -- `J` holds after `m` where it held before, also if `m` fails.
  abbrev pub Keeps : {A : Type 0} → Sql A → Type 0
  Keeps m = (db : Db) → J db.tables → J (m db).1.tables

  pub execute-Keeps : (f : Tables → Tables) → ((t : Tables) → J t → J (f t)) → Keeps (execute f)
  execute-Keeps f k db j = elim (execute_tables f db) [
    | inl e ↦ subst J (sym e) (k db.tables j)
    | inr e ↦ subst J (sym e) j
  ]

  pub execute_count-Keeps :
      (f : Tables → Tables × ℕ) → ((t : Tables) → J t → J (f t).0) → Keeps (execute_count f)
  execute_count-Keeps f k db j = elim (execute_count_tables f db) [
    | inl e ↦ subst J (sym e) (k db.tables j)
    | inr e ↦ subst J (sym e) j
  ]

  pub fetch-Keeps : {A : Type 0} (f : Tables → A) → Keeps (fetch f)
  fetch-Keeps f db j = subst J (sym (fetch_tables f db)) j

  pub bind-Keeps :
      {A B : Type 0} (m : Sql A) (k : A → Sql B)
      → Keeps m
      → ((a : A) → Keeps (k a))
      → Keeps (m >>= k)
  bind-Keeps {A} {B} m k h l db j = by_result (m db) (h db j)
    where
      by_result :
          (r : Result A Error × Db)
          → J r.1.tables
          → J
              (elim r.0 as (λ _. Result B Error × Db) [
                | ok a ↦ k a r.1
                | err e ↦ (err e, r.1)
              ]).1.tables
      by_result (ok a, db') j' = l a db' j'
      by_result (err e, db') j' = j'

  pub then-Keeps :
      {A : Type 0} (f : Tables → Tables) (m : Sql A)
      → ((t : Tables) → J t → J (f t))
      → Keeps m
      → Keeps (execute f >> m)
  then-Keeps f m k h = bind-Keeps (execute f) (λ _. m) (execute-Keeps f k) (λ _. h)

  pub if-Keeps :
      {A : Type 0} (b : Bool) (m k : Sql A)
      → Keeps m
      → Keeps k
      → Keeps (λ db. if b then m db else k db)
  if-Keeps true m k h l = h
  if-Keeps false m k h l = l

  pub transaction-Keeps : (m : Sql (Unit {0})) → Keeps m → Keeps (transaction m)
  unfolding transaction
  transaction-Keeps m h db j = by_result ((execute (λ t. t) >> m >> execute (λ t. t)) db) (
      bind-Keeps (execute (λ t. t)) (λ _. m >> execute (λ t. t)) (execute-Keeps (λ t. t) (λ t k. k))
        (λ _. bind-Keeps m (λ _. execute (λ t. t)) h (λ _. execute-Keeps (λ t. t) (λ t k. k))) db j)
    where
      by_result :
          (r : Result (Unit {0}) Error × Db)
          → J r.1.tables
          → J
              (elim r.0 as (λ _. Result (Unit {0}) Error × Db) [
                | ok u ↦ r
                | err e ↦ (err e, record (r.1) { tables = db.tables })
              ]).1.tables
      by_result (ok u, db') k = k
      by_result (err e, db') k = j
