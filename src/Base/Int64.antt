-- ===== src/Base/Int64.antt =====
-- Go's `int64`: an integer whose sums wrap around.
use Prim.Native.Nat.{ℕ, suc, ◌+◌, ◌-◌, ◌/◌, ◌%◌, ◌<◌}
use mathlib.Core.Path.{◌≡◌}
use native.Mathlib.Omega.{arith}
use vertix.Base.Tests.{ltb, ◌==◌, if◌then◌else◌}
use vertix.Base.Int.{ℤ, pos, negsuc, ◌+ℤ◌, pos-add}

-- 2^63 and 2^64
abbrev pub limit_63 : ℕ
limit_63 = 9_223_372_036_854_775_808

abbrev pub limit_64 : ℕ
limit_64 = 18_446_744_073_709_551_616

-- The low 64 bits, read as a signed number.
unfoldable pub wrap64 : ℤ → ℤ
wrap64 (pos n) = let m = n % limit_64 in if ltb m limit_63 then pos m else negsuc (limit_64 - 1 - m)
wrap64 (negsuc n) =
    let m = n % limit_64 in if ltb m limit_63 then negsuc m else pos (limit_64 - 1 - m)

unfoldable pub add64 : ℤ → ℤ → ℤ
unfolding wrap64
add64 a b = wrap64 (a +ℤ b)

-- `n / 2`, which rounds towards zero.
unfoldable pub halve64 : ℤ → ℤ
halve64 (pos n) = pos (n / 2)
halve64 (negsuc n) = let k = suc n / 2 in if k == 0 then pos 0 else negsuc (k - 1)

pub add64-small : (m n : ℕ) → m + n < limit_63 → add64 (pos m) (pos n) ≡ pos (m + n)
unfolding add64 wrap64
add64-small m n h = rw (pos-add m n) (ground arith)
