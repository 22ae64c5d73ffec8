-- ===== src/Gateway/Infra/Collateral.antt =====
-- What reserving and releasing does to the balances.
use omniscient.Prelude.{ℕ, ◌+◌, ◌-◌, ◌≤◌, ◌≡◌, ◌≢◌, Option, List, filter, length, arith}
use omniscient.Prelude.Integers.{add_nat-sub_nat}
use omniscient.Shared.Domain.{Address}
use omniscient.Shared.Order.{AssetType}
use omniscient.Store.{Balance}
use omniscient.Store.Table.{update_where, update_where_undo}
use omniscient.Gateway.Infra.{is_account, covers, can_reserve, reserve_row, release_row}

release_row-reserve_row : (a : ℕ) (b : Balance) → release_row a (reserve_row a b) ≡ b
release_row-reserve_row a b =
    let e = add_nat-sub_nat b.available_amount a in
    let f : b.hold_amount + a - a ≡ b.hold_amount = omega arith in ground arith

module _ (maker : Address) (asset : AssetType) (position : Option ℕ) (a : ℕ) where
  -- An account has one row at most: releasing gives back what was reserved.
  pub release-reserve :
      (bs : List Balance)
      → length (filter (is_account maker asset position) bs) ≤ 1
      → length (filter (can_reserve maker asset position a) bs) ≢ 0
      → update_where
          (is_account maker asset position)
          (release_row a)
          (update_where (can_reserve maker asset position a) (reserve_row a) bs)
        ≡ bs
  unfolding is_account
  release-reserve bs u n =
      update_where_undo (is_account maker asset position) (λ b. covers b.available_amount a)
        (reserve_row a) (release_row a) bs (λ b h. (h, release_row-reserve_row a b)) u n
