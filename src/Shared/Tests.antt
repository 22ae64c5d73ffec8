-- ===== src/Shared/Tests.antt =====
-- The theorems at concrete inputs.
pub mod Codec
pub mod Signing
pub mod Wire
use omniscient.Prelude.{ℕ, zero, suc, ◌+◌, ◌*◌, ◌≤◌, ◌<◌, ◌≡◌, refl, List, [], ◌∷◌, ◌++◌, arith}
use omniscient.Prelude.Result.{ok, err}
use omniscient.Shared.Hex.{from_hex, to_text, is_whitespace, len, wrong_length}
use omniscient.Shared.Hex.Laws.{from_hex-to_text, from_hex-unprefixed}
use omniscient.Shared.Tests.Codec.{codec}
use omniscient.Shared.Domain.{buy, sell}
use omniscient.Shared.Constants.{price_scale}
use omniscient.Shared.Order.{Order, required_collateral, required_collateral_bounds}

abbrev replicate : ℕ → ℕ → List ℕ
replicate zero x = []
replicate (suc n) x = x ∷ replicate n x

abbrev order : Order
order = record {
  salt = record { bytes = replicate 32 0 };
  maker = record { bytes = replicate 20 1 };
  position_id = 9;
  price = 333_333;
  amount = 10;
  side = buy;
  nonce = 0;
  deadline = 0;
}

required_collateral_bounds_example :
    (buy ≡ buy
      → (3_333_330 ≤ price_scale * required_collateral order)
        × (price_scale * required_collateral order < 3_333_330 + price_scale))
    × (buy ≡ sell → required_collateral order ≡ 10)
    × (required_collateral order ≤ 10)
required_collateral_bounds_example = required_collateral_bounds order (omega arith) (omega arith)

from_hex-unprefixed_example : from_hex codec 1 (32 ∷ b'a' ∷ b'b' ∷ []) ≡ err (wrong_length 3)
unfolding is_whitespace len
from_hex-unprefixed_example =
    from_hex-unprefixed codec 1 32 [] b'a' (b'b' ∷ []) (ground arith) (ground arith) refl
