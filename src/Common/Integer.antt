-- ===== src/Common/Integer.antt =====
-- The signed integers, as the standard library has them, over the native numbers: `pos n` is n and
-- `negsuc n` is -(n + 1).
use Prim.Native.Nat.{ℕ, ◌+◌, ◌-◌}

pub data ℤ : Type 0 where
  pos negsuc : ℕ → ℤ

-- The time `now + interval`, which is 0 if it were negative.
abbrev pub later : ℕ → ℤ → ℕ
later now (pos n) = now + n
later now (negsuc n) = now - (n + 1)
