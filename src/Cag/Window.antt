-- ===== src/Cag/Window.antt =====
-- The window of backend/app/services/cag.py as a list: what the greatest timestamp of the consumed
-- batch leaves out of the next window.
use terrible_naming_conventi.Base.{
  ℕ, zero, suc, ◌-◌, ◌≤◌, ◌<◌, ◌≡◌, refl, ap, some, Bool, List, [], ◌∷◌, arith, ltb, ◌==◌, length,
  count, All, take, get_elem?, count-le-length,
}
use terrible_naming_conventi.Models.{DocumentSummary, IsAscending}
use terrible_naming_conventi.Cag.{created_of, max_created_at, batch_of, remaining_of}

-- created later than a time
abbrev pub later : ℕ → DocumentSummary → Bool
later w s = ltb w s.created_at

abbrev pub IsStrict : List DocumentSummary → Type 0
IsStrict [] = Unit
IsStrict (x ∷ xs) = All (λ y. x.created_at < y.created_at) xs × IsStrict xs

pub take_all : (n : ℕ) (w : List DocumentSummary) → length w ≤ n → take n w ≡ w
take_all zero [] h = refl
take_all zero (x ∷ w) h = absurd (omega arith)
take_all (suc n) [] h = refl
take_all (suc n) (x ∷ w) h = ap (λ t. x ∷ t) (take_all n w (omega arith))

pub batch_of-eq-take : (n : ℕ) (w : List DocumentSummary) → batch_of n w ≡ take n w
batch_of-eq-take n w = ground (arith, take_all n w)

pub remaining_of-eq : (n : ℕ) (w : List DocumentSummary) → remaining_of n w ≡ length w - n
remaining_of-eq n w = ground arith

All-later :
    (w : ℕ) (xs : List DocumentSummary)
    → All (λ y. w < y.created_at) xs
    → count (later w) xs ≡ length xs
All-later w [] h = refl
All-later w (x ∷ xs) h = ground (arith, All-later w xs h.1)

-- At most what is left out of the batch is later than the greatest timestamp of the batch.
pub later_le :
    (n : ℕ) (xs : List DocumentSummary) (w : ℕ)
    → IsAscending created_of xs
    → 0 < n
    → w ≡ max_created_at (take n xs)
    → count (later w) xs ≤ length xs - n
later_le zero xs w a h e = absurd (omega arith)
later_le (suc n) [] w a h e = omega arith
later_le (suc zero) (x ∷ xs) w a h e = ground (arith, count-le-length (later w) xs)
later_le (suc (suc n)) (x ∷ []) w a h e = ground arith
later_le (suc (suc n)) (x ∷ y ∷ xs) w a h e = ground (arith, a.0.0, later_le (suc n) (y ∷ xs) w a.1)

-- Where the timestamps are distinct it is all that is left out.
pub later_eq :
    (n : ℕ) (xs : List DocumentSummary) (w : ℕ)
    → IsStrict xs
    → 0 < n
    → w ≡ max_created_at (take n xs)
    → count (later w) xs ≡ length xs - n
later_eq zero xs w a h e = absurd (omega arith)
later_eq (suc n) [] w a h e = omega arith
later_eq (suc zero) (x ∷ xs) w a h e =
    let same : w ≡ x.created_at = omega arith in ground (arith, All-later w xs (rw same a.0))
later_eq (suc (suc n)) (x ∷ []) w a h e = ground arith
later_eq (suc (suc n)) (x ∷ y ∷ xs) w a h e = ground (arith, a.0.0, later_eq (suc n) (y ∷ xs) w a.1)

-- A summary that is left out at the very timestamp of the batch is not later than it.
pub later_lt :
    (n : ℕ) (xs : List DocumentSummary) (w : ℕ) (s : DocumentSummary)
    → IsAscending created_of xs
    → 0 < n
    → w ≡ max_created_at (take n xs)
    → get_elem? xs n ≡ some s
    → s.created_at ≡ w
    → count (later w) xs < length xs - n
later_lt zero xs w s a h e g t = absurd (omega arith)
later_lt (suc n) [] w s a h e g t = cc
later_lt (suc zero) (x ∷ []) w s a h e g t = cc
later_lt (suc zero) (x ∷ y ∷ xs) w s a h e g t = ground (arith, count-le-length (later w) xs)
later_lt (suc (suc n)) (x ∷ []) w s a h e g t = cc
later_lt (suc (suc n)) (x ∷ y ∷ xs) w s a h e g t =
    ground (arith, a.0.0, later_lt (suc n) (y ∷ xs) w s a.1)

-- No timestamp stands twice in a list: an ascending list of them is strictly ascending.
none_at :
    (t : ℕ) (xs : List DocumentSummary)
    → count (λ s. s.created_at == t) xs ≡ 0
    → All (λ y. t ≤ y.created_at) xs
    → All (λ y. t < y.created_at) xs
none_at t [] c a = tt
none_at t (x ∷ xs) c a = ground (arith, none_at t xs)

pub IsStrict-of_distinct :
    (xs : List DocumentSummary)
    → IsAscending created_of xs
    → ((t : ℕ) → count (λ s. s.created_at == t) xs ≤ 1)
    → IsStrict xs
IsStrict-of_distinct [] a d = tt
IsStrict-of_distinct (x ∷ xs) a d = (
  none_at x.created_at xs (ground (arith, d x.created_at)) a.0,
  IsStrict-of_distinct xs a.1 (λ t. ground (arith, d t)),
)
