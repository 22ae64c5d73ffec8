-- ===== src/Gateway/Fees.antt =====
-- gateway/src/domain.rs: the fees and the volumes, in u128.
use omniscient.Prelude.{
  ℕ, ◌+◌, ◌*◌, ◌/◌, ◌≤◌, ◌<◌, ◌≡◌, arith, mul_u128, u64_mod, ap, List, [], ◌∷◌, All, length,
}
use omniscient.Shared.Constants.{price_scale, taker_fee_bps, maker_rebate_bps}
use omniscient.Shared.Order.{div_ceil, product-lt}

unfoldable pub taker_fee : ℕ → ℕ
taker_fee volume = mul_u128 volume taker_fee_bps / 10_000

unfoldable pub maker_rebate : ℕ → ℕ
maker_rebate volume = mul_u128 volume maker_rebate_bps / 10_000

unfoldable pub buy_volume : ℕ → ℕ → ℕ
buy_volume amount price = div_ceil (mul_u128 amount price) price_scale

unfoldable pub sell_volume : ℕ → ℕ → ℕ
sell_volume amount price = mul_u128 amount price / price_scale

module _ (amount price : ℕ) (h : amount < u64_mod) (k : price ≤ price_scale) where
  -- The product in u128 is exact.
  exact : mul_u128 amount price ≡ amount * price
  exact = let fits = product-lt amount price h k in omega arith

  buy_volume-eq : buy_volume amount price ≡ div_ceil (amount * price) price_scale
  unfolding buy_volume
  buy_volume-eq = ap (λ n. div_ceil n price_scale) exact

  sell_volume-eq : sell_volume amount price ≡ amount * price / price_scale
  unfolding sell_volume
  sell_volume-eq = ap (λ n. n / price_scale) exact

  below : amount * price ≤ amount * price_scale
  below = grind arith

  -- For a u64 amount and a price of at most one: the sell volume is at most the exact volume, the
  -- buy volume is at least that, they differ by one unit at most, and the buy volume is at most
  -- the amount.
  pub volume_bounds :
      (sell_volume amount price * price_scale ≤ amount * price)
      × (amount * price ≤ buy_volume amount price * price_scale)
      × (buy_volume amount price ≤ sell_volume amount price + 1)
      × (buy_volume amount price ≤ amount)
  volume_bounds =
      let u = below in rw (buy_volume-eq, sell_volume-eq) (ceil_floor (amount * price) u)
    where
      ceil_floor :
          (n : ℕ)
          → n ≤ amount * price_scale
          → (n / price_scale * price_scale ≤ n)
            × (n ≤ div_ceil n price_scale * price_scale)
            × (div_ceil n price_scale ≤ n / price_scale + 1)
            × (div_ceil n price_scale ≤ amount)
      ceil_floor n u = ground arith

div_ceil_add :
    (m n : ℕ)
    → (div_ceil (m + n) price_scale ≤ div_ceil m price_scale + div_ceil n price_scale)
      × (div_ceil m price_scale + div_ceil n price_scale ≤ div_ceil (m + n) price_scale + 1)
div_ceil_add m n = ground arith

-- A volume that a u64 order at a price of at most one can have is far from overflow: the taker's
-- fee is 50 and the maker's rebate 10 of 10000 parts, both rounded down, and the rebate is never
-- more than the fee.
pub fee_bounds :
    (volume : ℕ)
    → volume < u64_mod
    → (10_000 * taker_fee volume ≤ 50 * volume)
      × (50 * volume < 10_000 * taker_fee volume + 10_000)
      × (10_000 * maker_rebate volume ≤ 10 * volume)
      × (10 * volume < 10_000 * maker_rebate volume + 10_000)
      × (maker_rebate volume ≤ taker_fee volume)
unfolding taker_fee maker_rebate
fee_bounds volume h = omega arith

-- The sum of `f` over a list.
abbrev pub sum_of : (ℕ → ℕ) → List ℕ → ℕ
sum_of f [] = 0
sum_of f (v ∷ vs) = f v + sum_of f vs

-- For u64 volumes, as of the fills of an order: the taker's fees come to no more than 50 and the maker's
-- rebates to no more than 10 parts in 10000 of the sum of the volumes, and each volume loses less
-- than one unit of both, so that for one volume they are its share, rounded down; and the rebates
-- come to no more than the fees.
pub fees_bounds :
    (vs : List ℕ)
    → All (λ v. v < u64_mod) vs
    → let total = sum_of (λ v. v) vs in
      let fees = sum_of taker_fee vs in
      let rebates = sum_of maker_rebate vs in
      (10_000 * fees ≤ 50 * total)
      × (50 * total ≤ 10_000 * fees + 9_999 * length vs)
      × (10_000 * rebates ≤ 10 * total)
      × (10 * total ≤ 10_000 * rebates + 9_999 * length vs)
      × (rebates ≤ fees)
fees_bounds [] a = (omega arith, omega arith, omega arith, omega arith, omega arith)
fees_bounds (v ∷ vs) a =
    let b = fee_bounds v a.0 in
    let i = fees_bounds vs a.1 in (omega arith, omega arith, omega arith, omega arith, omega arith)

-- A buy that is split into two fills pays at least the volume of the whole, and at most one unit
-- more: the rounding is per fill.
pub buy_volume-add :
    (a b price : ℕ)
    → a + b < u64_mod
    → price ≤ price_scale
    → (buy_volume (a + b) price ≤ buy_volume a price + buy_volume b price)
      × (buy_volume a price + buy_volume b price ≤ buy_volume (a + b) price + 1)
buy_volume-add a b price h k =
    let split : (a + b) * price ≡ a * price + b * price = grind arith in
    rw
      (
        buy_volume-eq (a + b) price h k,
        buy_volume-eq a price (omega arith) k,
        buy_volume-eq b price (omega arith) k,
        split,
      )
      (div_ceil_add (a * price) (b * price))
