-- ===== src/Gateway/Tests/Fees.antt =====
-- Fees at concrete inputs.
use omniscient.Prelude.{◌+◌, ◌*◌, ◌≤◌, ◌≡◌, refl, List, [], ◌∷◌, ℕ, arith}
use omniscient.Gateway.Fees.{taker_fee, maker_rebate, sum_of, fees_bounds}

-- The volumes of three fills.
abbrev volumes : List ℕ
volumes = 1_234 ∷ 20_000 ∷ 199 ∷ []

fees : (sum_of taker_fee volumes ≡ 106) × (sum_of maker_rebate volumes ≡ 21)
unfolding taker_fee maker_rebate
fees = (refl, refl)

fees_bounds_example :
    (10_000 * sum_of taker_fee volumes ≤ 50 * 21_433)
    × (50 * 21_433 ≤ 10_000 * sum_of taker_fee volumes + 9_999 * 3)
    × (10_000 * sum_of maker_rebate volumes ≤ 10 * 21_433)
    × (10 * 21_433 ≤ 10_000 * sum_of maker_rebate volumes + 9_999 * 3)
    × (sum_of maker_rebate volumes ≤ sum_of taker_fee volumes)
fees_bounds_example = fees_bounds volumes (omega arith, (omega arith, (omega arith, tt)))
