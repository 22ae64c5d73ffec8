-- ===== src/Prelude/Integers.antt =====
-- The integers over the native numbers, for columns that can become negative.
use Prim.Native.Nat.{ℕ, ◌+◌, ◌-◌}
use mathlib.Core.Path.{◌≡◌}
use native.Mathlib.Omega.{arith}
use omniscient.Prelude.Tests.{ltb, leb, if◌then◌else◌}

pub data ℤ : Type 0 where
  pos : ℕ → ℤ
  negsuc : ℕ → ℤ

unfoldable pub add_nat : ℤ → ℕ → ℤ
add_nat (pos n) m = pos (n + m)
add_nat (negsuc n) m = if ltb n m then pos (m - n - 1) else negsuc (n - m)

unfoldable pub sub_nat : ℤ → ℕ → ℤ
sub_nat (pos n) m = if leb m n then pos (n - m) else negsuc (m - n - 1)
sub_nat (negsuc n) m = negsuc (n + m)

pub sub_nat-add_nat : (x : ℤ) (m : ℕ) → sub_nat (add_nat x m) m ≡ x
unfolding add_nat sub_nat
sub_nat-add_nat (pos n) m = ground arith
sub_nat-add_nat (negsuc n) m = ground arith

pub add_nat-sub_nat : (x : ℤ) (m : ℕ) → add_nat (sub_nat x m) m ≡ x
unfolding add_nat sub_nat
add_nat-sub_nat (pos n) m = ground arith
add_nat-sub_nat (negsuc n) m = ground arith
