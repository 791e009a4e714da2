-- ===== src/Base/Text.antt =====
-- Text as code points, and the string operations that the code uses.
use Prim.Native.Char.{code}
use Prim.Native.Nat.{ℕ, zero, suc, ◌+◌, ◌-◌, ◌/◌, ◌%◌}
use Prim.Native.String.{String}
use mathlib.Core.Bool.{Bool, true, false, ◌&&◌, ◌||◌}
use mathlib.Core.List.{List, [], ◌∷◌, ◌++◌}
use mathlib.Core.Path.{◌≡◌, refl}
use native.Mathlib.Omega.{arith}
use terrible_naming_conventi.Base.Tests.{◌==◌, if◌then◌else◌, leb}
use terrible_naming_conventi.Base.Lists.{length}

-- The code points of a literal.
abbrev pub codes : String → List ℕ
codes String.[] = []
codes (String.◌∷◌ c s) = code c ∷ codes s

-- `s == t`
abbrev pub same_text : List ℕ → List ℕ → Bool
same_text [] [] = true
same_text [] (d ∷ t) = false
same_text (c ∷ s) [] = false
same_text (c ∷ s) (d ∷ t) = c == d && same_text s t

pub same_text_refl : (s : List ℕ) → same_text s s ≡ true
same_text_refl [] = refl
same_text_refl (c ∷ s) = ground (arith, same_text_refl s)

pub same_text_eq : (s t : List ℕ) → same_text s t ≡ true → s ≡ t
same_text_eq [] [] h = refl
same_text_eq [] (d ∷ t) h = cc
same_text_eq (c ∷ s) [] h = cc
same_text_eq (c ∷ s) (d ∷ t) h = ground (arith, same_text_eq s t)

-- the characters that `str.strip` and `str.split` take for whitespace
abbrev pub is_space : ℕ → Bool
is_space c =
    (leb 9 c && leb c 13)
    || (leb 28 c && leb c 32)
    || c == 133
    || c == 160
    || c == 5760
    || (leb 8192 c && leb c 8202)
    || c == 8232
    || c == 8233
    || c == 8239
    || c == 8287
    || c == 12288

-- `not s.strip()`
abbrev pub is_blank : List ℕ → Bool
is_blank [] = true
is_blank (c ∷ s) = is_space c && is_blank s

-- `s[: len(p)] == p`
abbrev pub starts_with : List ℕ → List ℕ → Bool
starts_with [] s = true
starts_with (c ∷ p) [] = false
starts_with (c ∷ p) (d ∷ s) = c == d && starts_with p s

-- `p in s`
abbrev pub occurs : List ℕ → List ℕ → Bool
occurs p [] = starts_with p []
occurs p (c ∷ s) = starts_with p (c ∷ s) || occurs p s

-- `s.replace(p, r)`, where `skip` characters of a match are still to be passed over
abbrev pub replace_from : List ℕ → List ℕ → ℕ → List ℕ → List ℕ
replace_from p r skip [] = []
replace_from p r (suc skip) (c ∷ s) = replace_from p r skip s
replace_from p r zero (c ∷ s) =
    if starts_with p (c ∷ s)
    then r ++ replace_from p r (length p - 1) s
    else c ∷ replace_from p r zero s

-- `s.replace(p, r)` for a nonempty p
abbrev pub replace : List ℕ → List ℕ → List ℕ → List ℕ
replace p r s = replace_from p r zero s

-- the decimal digits of a number, which has at most `fuel` of them
abbrev pub digits : ℕ → ℕ → List ℕ → List ℕ
digits zero n ds = ds
digits (suc fuel) n ds =
    let ds' = (48 + n % 10) ∷ ds in if n / 10 == 0 then ds' else digits fuel (n / 10) ds'

-- `str(n)`
abbrev pub decimal : ℕ → List ℕ
decimal n = digits (suc n) n []
