-- ===== src/Prelude/Int.antt =====
-- Integers over the native numbers, for differences that the source lets go below zero.
use Prim.Native.Nat.{ℕ, suc, ◌+◌, ◌-◌, ◌/◌}
use messenger_web_app.Prelude.Tests.{leb, ltb, if◌then◌else◌}

-- `negsuc n` is -(n + 1).
pub data ℤ : Type 0 where
  pos : ℕ → ℤ
  negsuc : ℕ → ℤ

-- -n
abbrev pub neg : ℕ → ℤ
neg n = if ltb 0 n then negsuc (n - 1) else pos 0

-- a - b
abbrev pub sub_ℕ : ℕ → ℕ → ℤ
sub_ℕ a b = if leb b a then pos (a - b) else negsuc (b - a - 1)

-- `Math.ceil(z / d)`, where d is positive: up, hence towards zero below zero.
abbrev pub ceil_div : ℤ → ℕ → ℤ
ceil_div (pos n) d = pos ((n + (d - 1)) / d)
ceil_div (negsuc n) d = neg (suc n / d)

abbrev pub pos_part : ℤ → ℕ
pos_part (pos n) = n
pos_part (negsuc _) = 0
