-- ===== src/Eval/Agreement.antt =====
-- The grades that calibration takes from a run (eval/calibrate.py) are those that the report
-- averages (eval/report.py).
use terrible_naming_conventi.Base.{
  ℕ, ◌≡◌, refl, ap, sym, ◌∙◌, pos, some, false, List, [], ◌∷◌, ◌++◌, map, filter, length, All,
  Option-cases, inl, inr,
}
use terrible_naming_conventi.Errors.{Result, ok, >>=-inverse, ok-injective}
use terrible_naming_conventi.Models.{Text}
use terrible_naming_conventi.Eval.{
  ArmKind, cag, rag, same_arm, Axis, on_axis, ArmJudgeScores, JudgeScores, Grade, grade_on,
  JudgeOutcome, QuestionResult,
}
use terrible_naming_conventi.Eval.Report.{
  AxisAgg, Mean, axis_scores, unblind_axis, each, is_judged, sum, axis_agg, agg_of,
}
use terrible_naming_conventi.Eval.Counts.{length-map}
use terrible_naming_conventi.Eval.Calibrate.{grade_of, grades_of, extract_judge_grades}

-- The two answers of an outcome are of different arms.
abbrev pub IsPaired : QuestionResult → Type 0
IsPaired qr = (j : JudgeOutcome) → qr.judge ≡ some j → same_arm j.answer1_arm j.answer2_arm ≡ false

-- the grades of an arm on an axis
abbrev pub column : Axis → ArmKind → List Grade → List ℕ
column axis arm grades = map (grade_on axis) (filter (λ (g : Grade). same_arm g.arm arm) grades)

-- the scores of both arms as the report unblinds them
abbrev pub unblinded : Axis → List QuestionResult → Result (List (ℕ × ℕ))
unblinded axis results = each (unblind_axis axis) (filter is_judged results)

grade_on-grade_of :
    (axis : Axis) (id : Text) (arm : ArmKind) (s : ArmJudgeScores)
    → grade_on axis (grade_of id arm s) ≡ (on_axis axis s).score
grade_on-grade_of Axis.factual_correctness id arm s = refl
grade_on-grade_of Axis.grounding id arm s = refl
grade_on-grade_of Axis.conflict_handling id arm s = refl

-- An outcome gives one grade to each arm, which is its unblinded score.
abbrev Row : Axis → JudgeOutcome → Text → List Grade → Type 0
Row axis j id rest =
    (column axis cag (grades_of id (some j) ++ rest)
      ≡ (axis_scores axis j).0 ∷ column axis cag rest)
    × (column axis rag (grades_of id (some j) ++ rest)
        ≡ (axis_scores axis j).1 ∷ column axis rag rest)

row_lem :
    (axis : Axis) (a1 a2 : ArmKind) (scores : JudgeScores) (id : Text) (rest : List Grade)
    → same_arm a1 a2 ≡ false
    → Row axis (record { answer1_arm = a1; answer2_arm = a2; scores = scores }) id rest
row_lem axis cag cag scores id rest h = cc
row_lem axis rag rag scores id rest h = cc
row_lem axis cag rag scores id rest h = (
  ap (λ k. k ∷ column axis cag rest) (grade_on-grade_of axis id cag scores.answer1),
  ap (λ k. k ∷ column axis rag rest) (grade_on-grade_of axis id rag scores.answer2),
)
row_lem axis rag cag scores id rest h = (
  ap (λ k. k ∷ column axis cag rest) (grade_on-grade_of axis id cag scores.answer2),
  ap (λ k. k ∷ column axis rag rest) (grade_on-grade_of axis id rag scores.answer1),
)

-- the mean of scores
abbrev pub mean_of : List ℕ → Mean
mean_of ks = record { total = pos (sum ks); over = length ks }

mean_lem :
    (f : ℕ × ℕ → ℕ) (pairs : List (ℕ × ℕ)) {ks : List ℕ}
    → map f pairs ≡ ks
    → record { total = pos (sum (map f pairs)); over = length pairs } ≡ mean_of ks
mean_lem f pairs e =
    ap (λ n. record { total = pos (sum (map f pairs)); over = n }) (sym (length-map f pairs))
    ∙ ap mean_of e

columns_lem :
    (axis : Axis) (results : List QuestionResult) (pairs : List (ℕ × ℕ))
    → All IsPaired results
    → unblinded axis results ≡ ok pairs
    → (map (λ p. p.0) pairs ≡ column axis cag (extract_judge_grades results))
      × (map (λ p. p.1) pairs ≡ column axis rag (extract_judge_grades results))
unfolding each unblind_axis extract_judge_grades
columns_lem axis [] pairs paired h =
    let none_left : [] ≡ pairs = ok-injective h in
    (ap (map (λ p. p.0)) (sym none_left), ap (map (λ p. p.1)) (sym none_left))
columns_lem axis (qr ∷ qrs) pairs (paired, rest) h = elim (Option-cases qr.judge) [
  | inl unjudged ↦ rw unjudged (columns_lem axis qrs pairs rest (rw unjudged at h))
  | inr (j, e) ↦
      let (ys, found, last) = >>=-inverse (unblinded axis qrs) _ (rw e at h) in
      let whole : axis_scores axis j ∷ ys ≡ pairs = ok-injective last in
      let (cags, rags) = columns_lem axis qrs ys rest found in
      let (c, r) =
        row_lem axis j.answer1_arm j.answer2_arm j.scores qr.question_id (extract_judge_grades qrs)
          (paired j e) in
      rw e (
        ap (map (λ p. p.0)) (sym whole) ∙ ap (λ t. (axis_scores axis j).0 ∷ t) cags ∙ sym c,
        ap (map (λ p. p.1)) (sym whole) ∙ ap (λ t. (axis_scores axis j).1 ∷ t) rags ∙ sym r,
      )
]

-- Where the two answers of every outcome are of different arms, the report's mean of an arm on an
-- axis is the mean of the grades of that arm which calibration takes from the same results.
pub axis_agg-extract_judge_grades :
    (axis : Axis) (results : List QuestionResult) {a : AxisAgg}
    → All IsPaired results
    → axis_agg axis (filter is_judged results) ≡ ok a
    → let grades = extract_judge_grades results in
      (a.cag_mean ≡ mean_of (column axis cag grades))
      × (a.rag_mean ≡ mean_of (column axis rag grades))
unfolding axis_agg
axis_agg-extract_judge_grades axis results {a} paired h =
    let (pairs, found, last) = >>=-inverse (unblinded axis results) _ h in
    let made : agg_of pairs ≡ a = ok-injective last in
    let (c, r) = columns_lem axis results pairs paired found in
    (
      ap (λ (x : AxisAgg). x.cag_mean) (sym made) ∙ mean_lem (λ p. p.0) pairs c,
      ap (λ (x : AxisAgg). x.rag_mean) (sym made) ∙ mean_lem (λ p. p.1) pairs r,
    )
