-- ===== src/Shared/Constants.antt =====
-- shared/src/constants.rs
use omniscient.Prelude.{ℕ}

abbrev pub price_scale : ℕ
price_scale = 1_000_000

abbrev pub taker_fee_bps : ℕ
taker_fee_bps = 50

abbrev pub maker_rebate_bps : ℕ
maker_rebate_bps = 10

abbrev pub finality_blocks : ℕ
finality_blocks = 12
