-- ===== src/Jobs/Times.antt =====
-- The log of summaries that a window is taken from (`get_window_since` of backend/app/services/cag.py),
-- counted up to a time.
use terrible_naming_conventi.Base.{
  ℕ, zero, suc, ◌+◌, ◌≤◌, ◌<◌, ◌≡◌, refl, ap, sym, ◌∙◌, subst, Option, none, some, Bool, true,
  false, ◌&&◌, List, [], ◌∷◌, arith, leb, ◌==◌, count, take, All, count-filter, count-perm,
  count_congr,
}
use terrible_naming_conventi.Models.{Db, DocumentSummary, Postgres}
use terrible_naming_conventi.Cag.{in_window, max_created_at, get_window_since}
use terrible_naming_conventi.Cag.Window.{IsStrict}
use terrible_naming_conventi.Reduce.Covers.{flat}
use terrible_naming_conventi.Cag.Pending.{counts_for, window_perm}
use terrible_naming_conventi.Reduce.Covers.{flat}

pub some-injective : {A : Type 0} {x y : A} → some x ≡ some y → x ≡ y
some-injective h = cc

-- a summary covers its id
abbrev pub own_id : DocumentSummary → List ℕ
own_id s = s.id ∷ []

-- created no later than a time
abbrev pub by_time : ℕ → DocumentSummary → Bool
by_time w s = leb s.created_at w

pub count-own_id :
    (n : ℕ) (xs : List DocumentSummary)
    → count (λ i. i == n) (flat own_id xs) ≡ count (λ s. s.id == n) xs
count-own_id n [] = refl
count-own_id n (x ∷ xs) = ground (arith, count-own_id n xs)

-- The rows of a test are those of two others that no row passes together.
abbrev bit : Bool → ℕ
bit true = 1
bit false = 0

count_split :
    (a b c : DocumentSummary → Bool)
    → ((s : DocumentSummary) → bit (a s) ≡ bit (b s) + bit (c s))
    → (xs : List DocumentSummary) → count a xs ≡ count b xs + count c xs
count_split a b c h [] = omega arith
count_split a b c h (x ∷ xs) = ground (arith, h x, count_split a b c h xs)

none_early :
    (p : DocumentSummary → Bool) (w : ℕ) (xs : List DocumentSummary)
    → All (λ y. w < y.created_at) xs
    → count (λ s. by_time w s && p s) xs ≡ 0
none_early p w [] a = refl
none_early p w (x ∷ xs) a = ground (arith, a.0, none_early p w xs a.1)

-- Up to the greatest time of the first entries there is nothing but these, if the times ascend.
pub taken_lem :
    (p : DocumentSummary → Bool) (n : ℕ) (xs : List DocumentSummary) (w : ℕ)
    → IsStrict xs
    → 0 < n
    → w ≡ max_created_at (take n xs)
    → count (λ s. by_time w s && p s) xs ≡ count p (take n xs)
taken_lem p zero xs w a h e = absurd (omega arith)
taken_lem p (suc n) [] w a h e = refl
taken_lem p (suc zero) (x ∷ xs) w a h e =
    let same : w ≡ x.created_at = omega arith in
    ground (arith, none_early p w xs (subst (λ t. All (λ y. t < y.created_at) xs) (sym same) a.0))
taken_lem p (suc (suc n)) (x ∷ []) w a h e = ground arith
taken_lem p (suc (suc n)) (x ∷ y ∷ xs) w a h e =
    ground (arith, a.0.0, taken_lem p (suc n) (y ∷ xs) w a.1)

pub whole_lem :
    (p : DocumentSummary → Bool) (xs : List DocumentSummary) (w : ℕ)
    → max_created_at xs ≤ w
    → count (λ s. by_time w s && p s) xs ≡ count p xs
whole_lem p [] w h = refl
whole_lem p (x ∷ xs) w h = ground (arith, whole_lem p xs w)

module _ (pg : Postgres) (pid : ℕ) (db : Db) where
  -- the summaries of the project up to a time that pass a test
  abbrev pub logged_by : ℕ → (DocumentSummary → Bool) → ℕ
  logged_by w p = count (λ s. (counts_for pg pid db s && by_time w s) && p s) db.document_summaries

  -- the same, up to the watermark of a window
  abbrev pub logged_before : Option ℕ → (DocumentSummary → Bool) → ℕ
  logged_before none p = 0
  logged_before (some o) p = logged_by o p

  window_count :
      (m : Option ℕ) (q : DocumentSummary → Bool)
      → count q (get_window_since pg pid m db)
        ≡ count (λ s. in_window pg pid m s && q s) db.document_summaries
  window_count m q =
      count-perm q (window_perm pg pid db m)
      ∙ count-filter q (in_window pg pid m) db.document_summaries

  -- What is logged by a time is what was logged by the watermark, and what the window has by then.
  pub logged_by_lem :
      (m : Option ℕ) (w : ℕ) (p : DocumentSummary → Bool)
      → ((o : ℕ) → m ≡ some o → o ≤ w)
      → logged_by w p
        ≡ logged_before m p + count (λ s. by_time w s && p s) (get_window_since pg pid m db)
  logged_by_lem none w p later_than = omega (
    arith,
    count_congr (λ s. (counts_for pg pid db s && by_time w s) && p s)
        (λ s. in_window pg pid none s && (by_time w s && p s)) db.document_summaries
        (λ s. ground arith),
    window_count none (λ s. by_time w s && p s),
  )
  logged_by_lem (some o) w p later_than =
      count_split (λ s. (counts_for pg pid db s && by_time w s) && p s)
        (λ s. (counts_for pg pid db s && by_time o s) && p s)
        (λ s. in_window pg pid (some o) s && (by_time w s && p s))
        (λ s. ground (arith, later_than o refl)) db.document_summaries
      ∙ ap (λ k. logged_by o p + k) (sym (window_count (some o) (λ s. by_time w s && p s)))
