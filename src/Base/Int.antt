-- ===== src/Base/Int.antt =====
-- Go's `int`, as the integers: `negsuc n` is -(n + 1). No value of the program nears its bounds.
use Prim.Native.Nat.{ℕ}
use mathlib.Core.Bool.{Bool, true, false}
use big_red_button.Base.Tests.{ltb, eqb}

pub data ℤ : Type 0 where
  pos : ℕ → ℤ
  negsuc : ℕ → ℤ

-- `a < b` at a bound that is a natural number
abbrev pub below : ℤ → ℕ → Bool
below (pos n) b = ltb n b
below (negsuc _) b = true

-- `b < a`
abbrev pub above : ℤ → ℕ → Bool
above (pos n) b = ltb b n
above (negsuc _) b = false

-- `a == b`
abbrev pub equals : ℤ → ℕ → Bool
equals (pos n) b = eqb n b
equals (negsuc _) b = false
