-- ===== src/Eval/Counts.antt =====
-- The figures of a report (eval/report.py) add up.
use terrible_naming_conventi.Base.{
  ℕ, ◌+◌, ◌≡◌, ◌≤◌, refl, ◌⊖◌, pos, some, List, [], ◌∷◌, map, filter, count, length, arith, All,
  min, Some,
}
use terrible_naming_conventi.Models.{IsDescending}
use terrible_naming_conventi.Eval.{Axis, JudgeOutcome, QuestionResult}
use terrible_naming_conventi.Eval.Divergent.{IsDivergence}
use mathlib.Core.List.Permᴰ
use terrible_naming_conventi.Eval.Report.{AxisAgg, ReportData, is_judged, divergence_key}

pub length-map : {A B : Type 0} (f : A → B) (xs : List A) → length (map f xs) ≡ length xs
length-map f [] = refl
length-map f (x ∷ xs) = omega (arith, length-map f xs)

-- The questions of an axis are split by their sign, and the mean difference is that of the means.
pub record IsBalanced (a : AxisAgg) (judged : ℕ) : Type 0 where
  pub n : a.n ≡ judged
  pub split : a.cag_better + a.rag_better + a.tie ≡ judged
  pub listed : length a.per_question_deltas ≡ judged
  pub over : (a.cag_mean.over ≡ judged) × (a.rag_mean.over ≡ judged) × (a.delta_mean.over ≡ judged)
  pub means :
      (c : ℕ) × (r : ℕ) × (a.cag_mean.total ≡ pos c)
      × (a.rag_mean.total ≡ pos r)
      × (a.delta_mean.total ≡ c ⊖ r)

-- The question has an outcome.
abbrev IsJudged : QuestionResult → Type 0
IsJudged qr = (j : JudgeOutcome) × (qr.judge ≡ some j)

module _ (results : List QuestionResult) where
  abbrev judged : List QuestionResult
  judged = filter is_judged results

  -- Every question with an outcome is counted once on every axis. Three questions are named, or all
  -- that have an outcome if they are fewer, each with the totals of both arms and their difference,
  -- by descending difference.
  abbrev pub IsReport : ReportData → Type 0
  IsReport data' =
      ((axis : Axis) → IsBalanced (data'.axis_aggs axis) (count is_judged results))
      × (data'.n_questions ≡ length results)
      × (data'.n_judged ≡ count is_judged results)
      × (length data'.most_divergent ≡ min 3 (count is_judged results))
      × All (λ d. Some (IsDivergence d) results) data'.most_divergent
      × IsDescending divergence_key data'.most_divergent
      × (length data'.conflict_views ≤ data'.n_judged)
