-- ===== src/Base/Integers.antt =====
-- The integers over the native numbers.
use Prim.Native.Nat.{ℕ, ◌+◌, ◌-◌}
use mathlib.Core.Bool.{Bool, true, false}
use mathlib.Core.Path.{◌≡◌}
use native.Mathlib.Omega.{arith}
use terrible_naming_conventi.Base.Tests.{ltb, leb, if◌then◌else◌}

-- `negsuc n` is minus one minus n
pub data ℤ : Type 0 where
  pos negsuc : ℕ → ℤ

infixl 45 ◌⊖◌
-- `m - n`
abbrev pub ◌⊖◌ : ℕ → ℕ → ℤ
m ⊖ n = if ltb m n then negsuc (n - m - 1) else pos (m - n)

infixl 40 ◌+ℤ◌
abbrev pub ◌+ℤ◌ : ℤ → ℤ → ℤ
pos m +ℤ pos n = pos (m + n)
pos m +ℤ negsuc n = m ⊖ (n + 1)
negsuc m +ℤ pos n = n ⊖ (m + 1)
negsuc m +ℤ negsuc n = negsuc (m + n + 1)

-- `abs(z)`
abbrev pub abs : ℤ → ℕ
abs (pos n) = n
abs (negsuc n) = n + 1

abbrev pub is_positive : ℤ → Bool
is_positive (pos n) = ltb 0 n
is_positive (negsuc n) = false

abbrev pub is_negative : ℤ → Bool
is_negative (pos n) = false
is_negative (negsuc n) = true

abbrev pub is_zero : ℤ → Bool
is_zero (pos n) = leb n 0
is_zero (negsuc n) = false

pub ⊖-add : (a b c d : ℕ) → (a ⊖ b) +ℤ (c ⊖ d) ≡ (a + c) ⊖ (b + d)
⊖-add a b c d = ground arith
