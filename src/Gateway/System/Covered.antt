-- ===== src/Gateway/System/Covered.antt =====
-- When what is on hold covers the holds, and what keeps it so.
use omniscient.Prelude.{ℕ, ◌+◌, ◌≤◌, ◌≡◌, ◌≢◌, refl, filter, length, arith}
use omniscient.Store.{Tables}
use omniscient.Store.Table.{update_where}
use omniscient.Gateway.Infra.{is_account, can_reserve, reserve_row, release_row}
use omniscient.Gateway.System.OnHold.{
  Account, of_account, on_hold, held_total, extra, on_hold-reserve, on_hold-release,
  count-update_where,
}

-- No account has more than one row, and its holds, with `x` more for the account `c`, come to no more
-- than what it has on hold.
pub record IsCoveredWith (c : Account) (x : ℕ) (t : Tables) : Type 0 where
  pub one_row : (a : Account) → length (filter (of_account a) t.balances) ≤ 1
  pub covered : (a : Account) → held_total a t.holds + extra c x a ≤ on_hold a t.balances

pub record IsCovered (t : Tables) : Type 0 where
  pub one_row : (a : Account) → length (filter (of_account a) t.balances) ≤ 1
  pub covered : (a : Account) → held_total a t.holds ≤ on_hold a t.balances

-- It is about the balances and the holds alone.
pub IsCovered-same :
    (t t' : Tables) → t'.balances ≡ t.balances → t'.holds ≡ t.holds → IsCovered t → IsCovered t'
IsCovered-same t t' e f v = record {
  one_row = λ a. rw e (v.one_row a);
  covered = λ a. rw (e, f) (v.covered a);
}

pub IsCoveredWith-same :
    (c : Account) (x : ℕ) (t t' : Tables)
    → t'.balances ≡ t.balances
    → t'.holds ≡ t.holds
    → IsCoveredWith c x t
    → IsCoveredWith c x t'
IsCoveredWith-same c x t t' e f v = record {
  one_row = λ a. rw e (v.one_row a);
  covered = λ a. rw (e, f) (v.covered a);
}

abbrev pub reserve_in : Account → ℕ → Tables → Tables
reserve_in c x t = record t {
  balances = update_where (can_reserve c.maker c.asset c.position x) (reserve_row x) t.balances;
}

abbrev pub release_in : Account → ℕ → Tables → Tables
release_in c x t = record t { balances = update_where (of_account c) (release_row x) t.balances }

reserve-one_row :
    (c : Account) (x : ℕ) (t : Tables)
    → ((a : Account) → length (filter (of_account a) t.balances) ≤ 1)
    → (a : Account) → length (filter (of_account a) (reserve_in c x t).balances) ≤ 1
unfolding is_account
reserve-one_row c x t u a =
    rw
      (count-update_where (of_account a) (can_reserve c.maker c.asset c.position x) (reserve_row x)
        t.balances (λ b. refl))
      (u a)

-- An account that cannot reserve keeps what it has.
pub IsCovered-reserve_none :
    (c : Account) (x : ℕ) (t : Tables) → IsCovered t → IsCovered (reserve_in c x t)
IsCovered-reserve_none c x t v = record {
  one_row = reserve-one_row c x t v.one_row;
  covered = λ a. let h = v.covered a in let i = on_hold-reserve a c x t.balances in omega arith;
}

pub IsCoveredWith-reserve :
    (c : Account) (x : ℕ) (t : Tables)
    → length (filter (can_reserve c.maker c.asset c.position x) t.balances) ≢ 0
    → IsCovered t
    → IsCoveredWith c x (reserve_in c x t)
IsCoveredWith-reserve c x t n v = record {
  one_row = reserve-one_row c x t v.one_row;
  covered =
      λ a. let h = v.covered a in let i = (on_hold-reserve a c x t.balances).1 n in omega arith;
}

pub IsCovered-release :
    (c : Account) (x : ℕ) (t : Tables) → IsCoveredWith c x t → IsCovered (release_in c x t)
unfolding is_account
IsCovered-release c x t v = record {
  one_row = λ a.
      rw (count-update_where (of_account a) (of_account c) (release_row x) t.balances (λ b. refl))
        (v.one_row a);
  covered = λ a.
      let h = v.covered a in let i = on_hold-release a c x t.balances (v.one_row c) in omega arith;
}

pub IsCovered-less : (c : Account) (x : ℕ) (t : Tables) → IsCoveredWith c x t → IsCovered t
IsCovered-less c x t v = record {
  one_row = v.one_row;
  covered = λ a. let h = v.covered a in omega arith;
}
