-- ===== src/Prelude/Int.antt =====
-- Whole numbers that a form field may hold; `negsuc n` is -(n + 1).
use Prim.Native.Nat.{ℕ, ◌-◌}
use mathlib.Core.Bool.{Bool, true, false}
use aurora_api_gateway.Prelude.Tests.{leb, if◌then◌else◌}

pub data ℤ : Type 0 where
  pos : ℕ → ℤ
  negsuc : ℕ → ℤ

-- `m <= n`
abbrev pub int_leb : ℤ → ℤ → Bool
int_leb (pos m) (pos n) = leb m n
int_leb (pos m) (negsuc n) = false
int_leb (negsuc m) (pos n) = true
int_leb (negsuc m) (negsuc n) = leb n m

-- `m - n`
abbrev pub int_sub : ℕ → ℕ → ℤ
int_sub m n = if leb n m then pos (m - n) else negsuc (n - m - 1)
