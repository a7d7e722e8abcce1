-- ===== src/Base/Int.antt =====
-- Go's `int` where it may be negative: the integers over the native numbers.
use Prim.Native.Nat.{ℕ}
use mathlib.Core.Bool.{Bool, true, false, ◌&&◌}
use smotryashchiy.Base.Tests.{leb}

pub data ℤ : Type 0 where
  pos negsuc : ℕ → ℤ

-- `lo <= n && n <= hi`
abbrev pub is_between : ℕ → ℕ → ℤ → Bool
is_between lo hi (pos n) = leb lo n && leb n hi
is_between lo hi (negsuc n) = false

abbrev pub is_negative : ℤ → Bool
is_negative (pos n) = false
is_negative (negsuc n) = true
