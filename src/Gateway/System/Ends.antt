-- ===== src/Gateway/System/Ends.antt =====
-- How the tables end up after a statement, and after one statement behind another.
use omniscient.Prelude.{◌≡◌, ◌⊎◌, inl, inr, sym, subst, arith}
use omniscient.Prelude.Result.{Result, ok, err}
use omniscient.Store.{Tables, Db, Sql, Error, sqlx, execute}
use omniscient.Gateway.Service.{OrderError, map_error, or_release, and_then}

-- The tables satisfy `P` after a success and `Q` after an error.
abbrev pub Ends :
    {E : Type 0} → (Tables → Type 0) → (Tables → Type 0) → Result (Unit {0}) E × Db → Type 0
Ends P Q (ok u, db) = P db.tables
Ends P Q (err e, db) = Q db.tables

pub execute_cases :
    (f : Tables → Tables) (db : Db)
    → (((execute f db).0 ≡ ok tt) × ((execute f db).1.tables ≡ f db.tables))
      ⊎ (((execute f db).0 ≡ err sqlx) × ((execute f db).1.tables ≡ db.tables))
unfolding execute
execute_cases f db = ground arith

module _ (P Q : Tables → Type 0) where
  pub Ends-ok :
      {E : Type 0} (r : Result (Unit {0}) E × Db) → r.0 ≡ ok tt → P r.1.tables → Ends P Q r
  Ends-ok (ok u, db) e h = h
  Ends-ok (err x, db) e h = cc

  pub Ends-err :
      {E : Type 0} (r : Result (Unit {0}) E × Db) (x : E) → r.0 ≡ err x → Q r.1.tables → Ends P Q r
  Ends-err (ok u, db) x e h = cc
  Ends-err (err y, db) x e h = h

  pub execute-Ends :
      (f : Tables → Tables) (db : Db) → P (f db.tables) → Q db.tables → Ends P Q (execute f db)
  execute-Ends f db p q = elim (execute_cases f db) [
    | inl c ↦ Ends-ok (execute f db) c.0 (subst P (sym c.1) p)
    | inr c ↦ Ends-err (execute f db) sqlx c.0 (subst Q (sym c.1) q)
  ]

  pub map_error-Ends :
      (f : Error → OrderError) (r : Result (Unit {0}) Error × Db)
      → Ends P Q r
      → Ends P Q (map_error f r.0, r.1)
  map_error-Ends f (ok u, db) h = h
  map_error-Ends f (err e, db) h = h

  pub and_then-Ends :
      (R : Tables → Type 0) (m k : Db → Result (Unit {0}) OrderError × Db) (db : Db)
      → Ends R Q (m db)
      → ((db' : Db) → R db'.tables → Ends P Q (k db'))
      → Ends P Q (and_then m k db)
  and_then-Ends R m k db h l = by_result (m db) h
    where
      by_result :
          (r : Result (Unit {0}) OrderError × Db)
          → Ends R Q r
          → Ends P Q (elim r.0 as (λ _. Result (Unit {0}) OrderError × Db) [
            | ok u ↦ k r.1
            | err e ↦ (err e, r.1)
          ])
      by_result (ok u, db') h = l db' h
      by_result (err e, db') h = h

  pub or_release-Ends :
      (R : Tables → Type 0) (f : Error → OrderError) (release step : Sql (Unit {0})) (db : Db)
      → Ends P R (step db)
      → ((db' : Db) → R db'.tables → Q (release db').1.tables)
      → Ends P Q (or_release f release step db)
  or_release-Ends R f release step db h l = by_result (step db) h
    where
      by_result :
          (r : Result (Unit {0}) Error × Db)
          → Ends P R r
          → Ends P Q (elim r.0 as (λ _. Result (Unit {0}) OrderError × Db) [
            | ok u ↦ (ok tt, r.1)
            | err e ↦ (err (f e), (release r.1).1)
          ])
      by_result (ok u, db') h = h
      by_result (err e, db') h = l db' h
