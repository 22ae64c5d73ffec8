-- ===== src/Shared/Order.antt =====
-- shared/src/domain.rs: `Order` and its collateral.
use omniscient.Prelude.{
  ℕ, ◌+◌, ◌*◌, ◌/◌, ◌%◌, ◌≤◌, ◌<◌, ◌≡◌, refl, List, arith, mul_u128, u64_mod, u128_mod,
  if◌then◌else◌, ◌==◌,
}
use native.Mathlib.Nat.{le_refl}
use omniscient.Shared.Domain.{Address, OrderSide, buy, sell}
use omniscient.Shared.Constants.{price_scale}

pub record Bytes32 : Type 0 where
  pub bytes : List ℕ

pub record Order : Type 0 where
  pub salt : Bytes32
  pub maker : Address
  pub position_id : ℕ
  pub price : ℕ
  pub amount : ℕ
  pub side : OrderSide
  pub nonce : ℕ
  pub deadline : ℕ

pub record SignedOrder : Type 0 where
  pub order : Order
  pub signature : List ℕ

-- "usdc" and "ctf"
pub data AssetType : Type 0 where
  usdc ctf : AssetType

-- `u128::div_ceil`
abbrev pub div_ceil : ℕ → ℕ → ℕ
div_ceil a b = if a % b == 0 then a / b else a / b + 1

unfoldable pub required_collateral : Order → ℕ
required_collateral o =
    let volume = div_ceil (mul_u128 o.amount o.price) 1_000_000 in
    elim o.side [ buy ↦ volume | sell ↦ o.amount ]

unfoldable pub asset_type : Order → AssetType
asset_type o = elim o.side [ buy ↦ usdc | sell ↦ ctf ]

-- `amount as u128 * price as u128` does not overflow for a price of at most one.
pub product-lt : (a p : ℕ) → a < u64_mod → p ≤ price_scale → a * p < u128_mod
product-lt a p h k = let m : a * p ≤ a * price_scale = grind arith in omega arith

pub div_ceil_bounds :
    (n : ℕ)
    → (n ≤ price_scale * div_ceil n 1_000_000)
      × (price_scale * div_ceil n 1_000_000 < n + price_scale)
div_ceil_bounds n = ground arith

-- For u64 fields and a price of at most one, the collateral of a buy is the price of the amount
-- rounded up to whole units, a sell is covered by the shares themselves, and the collateral is at
-- most the amount, so that it fits a u64.
pub required_collateral_bounds :
    (o : Order)
    → o.amount < u64_mod
    → o.price ≤ price_scale
    → (o.side ≡ buy
        → (o.amount * o.price ≤ price_scale * required_collateral o)
          × (price_scale * required_collateral o < o.amount * o.price + price_scale))
      × (o.side ≡ sell → required_collateral o ≡ o.amount)
      × (required_collateral o ≤ o.amount)
unfolding required_collateral
required_collateral_bounds o h k = by_side o.side
  where
    exact : mul_u128 o.amount o.price ≡ o.amount * o.price
    exact = let fits = product-lt o.amount o.price h k in omega arith

    below : o.amount * o.price ≤ o.amount * price_scale
    below = grind arith

    by_side :
        (side : OrderSide)
        → let c : ℕ = elim side [
          | buy ↦ div_ceil (mul_u128 o.amount o.price) 1_000_000
          | sell ↦ o.amount
        ] in
          (side ≡ buy
            → (o.amount * o.price ≤ price_scale * c)
              × (price_scale * c < o.amount * o.price + price_scale))
          × (side ≡ sell → c ≡ o.amount)
          × (c ≤ o.amount)
    by_side buy =
        let b = div_ceil_bounds (o.amount * o.price) in
        let u = below in rw exact ((λ e. b), (λ e. cc), omega arith)
    by_side sell = ((λ e. cc), (λ e. refl), le_refl o.amount)
