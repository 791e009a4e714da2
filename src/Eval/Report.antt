-- ===== src/Eval/Report.antt =====
-- The unblinding of the judge's scores and the figures of the report: eval/report.py. A mean is kept
-- as the sum and the count that it is the quotient of; with a count of zero it is 0.0. The text of
-- the report is not modelled.
use terrible_naming_conventi.Base.{
  ℕ, ◌+◌, ◌⊖◌, ◌+ℤ◌, ℤ, pos, abs, is_positive, is_negative, is_zero, Option, none, some, Bool, true,
  false, List, [], ◌∷◌, map, filter, count, length, take, if◌then◌else◌,
}
use terrible_naming_conventi.Errors.{Result, ok, err, ◌>>=◌, eval_invariant_error}
use terrible_naming_conventi.Models.{Text}
use terrible_naming_conventi.Sorting.{arrange, down}
use terrible_naming_conventi.Eval.{
  ArmKind, cag, rag, same_arm, ExpectedBehavior, factual, supersession_resolved, conflict_surfaced,
  Axis, factual_correctness, grounding, conflict_handling, ArmJudgeScores, on_axis, JudgeOutcome,
  QuestionResult,
}

pub record Mean : Type 0 where
  pub total : ℤ
  pub over : ℕ

pub record AxisAgg : Type 0 where
  pub cag_mean : Mean
  pub rag_mean : Mean
  pub delta_mean : Mean
  pub per_question_deltas : List ℤ
  pub cag_better : ℕ
  pub rag_better : ℕ
  pub tie : ℕ
  pub n : ℕ

pub record QuestionDivergence : Type 0 where
  pub question_id : Text
  pub expected_behavior : ExpectedBehavior
  pub cag_total : ℕ
  pub rag_total : ℕ
  pub delta_total : ℤ

pub record ConflictQuestionView : Type 0 where
  pub question_id : Text
  pub question_text : Text
  pub cag_answer : Text
  pub rag_answer : Text
  pub cag_scores : ArmJudgeScores
  pub rag_scores : ArmJudgeScores

pub record ReportData : Type 0 where
  pub axis_aggs : Axis → AxisAgg
  pub most_divergent : List QuestionDivergence
  pub conflict_views : List ConflictQuestionView
  pub n_questions : ℕ
  pub n_judged : ℕ

-- the scores of an arm, and of both on an axis, of a judged question
abbrev pub arm_scores : ArmKind → JudgeOutcome → ArmJudgeScores
arm_scores arm j = if same_arm j.answer1_arm arm then j.scores.answer1 else j.scores.answer2

abbrev pub axis_scores : Axis → JudgeOutcome → ℕ × ℕ
axis_scores axis j =
    let a1 = (on_axis axis j.scores.answer1).score in
    let a2 = (on_axis axis j.scores.answer2).score in
    if same_arm j.answer1_arm cag then (a1, a2) else (a2, a1)

-- raises without an outcome
abbrev pub of_judged : {A : Type 0} → Option JudgeOutcome → (JudgeOutcome → A) → Result A
of_judged none f = err eval_invariant_error
of_judged (some j) f = ok (f j)

unfoldable pub unblind_axis : Axis → QuestionResult → Result (ℕ × ℕ)
unblind_axis axis qr = of_judged qr.judge (axis_scores axis)

unfoldable pub unblind_arm_scores : ArmKind → QuestionResult → Result ArmJudgeScores
unblind_arm_scores arm qr = of_judged qr.judge (arm_scores arm)

-- a list comprehension whose body may raise
unfoldable pub each : {A B : Type 0} → (A → Result B) → List A → Result (List B)
each f [] = ok []
each f (x ∷ xs) = do y ← f x; ys ← each f xs; ok (y ∷ ys)

abbrev pub is_some : {A : Type 0} → Option A → Bool
is_some none = false
is_some (some a) = true

abbrev pub is_judged : QuestionResult → Bool
is_judged r = is_some r.judge

abbrev pub sum_ℤ : List ℤ → ℤ
sum_ℤ [] = pos 0
sum_ℤ (z ∷ zs) = z +ℤ sum_ℤ zs

abbrev pub sum : List ℕ → ℕ
sum [] = 0
sum (k ∷ ks) = k + sum ks

abbrev pub delta : ℕ × ℕ → ℤ
delta p = p.0 ⊖ p.1

abbrev pub agg_of : List (ℕ × ℕ) → AxisAgg
agg_of pairs =
    let deltas = map delta pairs in
    let n = length pairs in
    record {
      cag_mean = record { total = pos (sum (map (λ p. p.0) pairs)); over = n };
      rag_mean = record { total = pos (sum (map (λ p. p.1) pairs)); over = n };
      delta_mean = record { total = sum_ℤ deltas; over = n };
      per_question_deltas = deltas;
      cag_better = count is_positive deltas;
      rag_better = count is_negative deltas;
      tie = count is_zero deltas;
      n = n;
    }

unfoldable pub axis_agg : Axis → List QuestionResult → Result AxisAgg
unfolding each unblind_axis
axis_agg axis judged = do pairs ← each (unblind_axis axis) judged; ok (agg_of pairs)

abbrev pub divergence_of : QuestionResult → ℕ × ℕ → ℕ × ℕ → ℕ × ℕ → QuestionDivergence
divergence_of qr f g c =
    let cag_total = f.0 + g.0 + c.0 in
    let rag_total = f.1 + g.1 + c.1 in
    record {
      question_id = qr.question_id;
      expected_behavior = qr.expected_behavior;
      cag_total = cag_total;
      rag_total = rag_total;
      delta_total = cag_total ⊖ rag_total;
    }

unfoldable pub divergence : QuestionResult → Result QuestionDivergence
unfolding unblind_axis
divergence qr = do
  f ← unblind_axis factual_correctness qr
  g ← unblind_axis grounding qr
  c ← unblind_axis conflict_handling qr
  ok (divergence_of qr f g c)

abbrev pub surfaces : ExpectedBehavior → Bool
surfaces factual = false
surfaces supersession_resolved = false
surfaces conflict_surfaced = true

abbrev pub view_of : QuestionResult → ArmJudgeScores → ArmJudgeScores → ConflictQuestionView
view_of qr cag_scores rag_scores = record {
  question_id = qr.question_id;
  question_text = qr.question_text;
  cag_answer = qr.cag.answer;
  rag_answer = qr.rag.answer;
  cag_scores = cag_scores;
  rag_scores = rag_scores;
}

unfoldable pub conflict_view : QuestionResult → Result ConflictQuestionView
unfolding unblind_arm_scores
conflict_view qr = do
  cag_scores ← unblind_arm_scores cag qr
  rag_scores ← unblind_arm_scores rag qr
  ok (view_of qr cag_scores rag_scores)

-- `axis_aggs[axis]`
abbrev pub by_axis : {A : Type 0} → A → A → A → Axis → A
by_axis f g c Axis.factual_correctness = f
by_axis f g c Axis.grounding = g
by_axis f g c Axis.conflict_handling = c

abbrev pub divergence_key : QuestionDivergence → ℕ
divergence_key d = abs d.delta_total

unfoldable pub aggregate : List QuestionResult → Result ReportData
unfolding axis_agg divergence conflict_view
aggregate results = do
  let judged = filter is_judged results
  f ← axis_agg factual_correctness judged
  g ← axis_agg grounding judged
  c ← axis_agg conflict_handling judged
  divergences ← each divergence judged
  views ←
      each conflict_view (filter (λ (qr : QuestionResult). surfaces qr.expected_behavior) judged)
  ok (record {
    axis_aggs = by_axis f g c;
    most_divergent = take 3 (arrange (down divergence_key) divergences);
    conflict_views = views;
    n_questions = length results;
    n_judged = length judged;
  })
