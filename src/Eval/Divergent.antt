-- ===== src/Eval/Divergent.antt =====
-- Which questions a report names as the most divergent (eval/report.py).
use terrible_naming_conventi.Base.{
  ℕ, ◌+◌, ◌≡◌, refl, ◌⊖◌, ◌⊎◌, inl, inr, some, List, [], ◌∷◌, All, All-map, Some, length, arith,
}
use terrible_naming_conventi.Errors.{Result, ok}
use terrible_naming_conventi.Eval.{
  ArmKind, cag, rag, ArmJudgeScores, JudgeOutcome, QuestionResult, factual_correctness, grounding,
  conflict_handling,
}
use terrible_naming_conventi.Eval.Report.{
  QuestionDivergence, arm_scores, axis_scores, each, divergence_of,
}

-- The scores of an arm on the three axes together.
abbrev pub total_score : ArmJudgeScores → ℕ
total_score s = s.factual_correctness.score + s.grounding.score + s.conflict_handling.score

-- The entry is the question's: the totals of both arms, unblinded, and their difference.
abbrev pub IsDivergence : QuestionDivergence → QuestionResult → Type 0
IsDivergence d qr =
    (j : JudgeOutcome) × (qr.judge ≡ some j)
    × (d.question_id ≡ qr.question_id)
    × (d.cag_total ≡ total_score (arm_scores cag j))
    × (d.rag_total ≡ total_score (arm_scores rag j))
    × (d.delta_total ≡ total_score (arm_scores cag j) ⊖ total_score (arm_scores rag j))

arm-cases : (a : ArmKind) → (a ≡ cag) ⊎ (a ≡ rag)
arm-cases cag = inl refl
arm-cases rag = inr refl

pub divergence_of-IsDivergence :
    (qr : QuestionResult) (j : JudgeOutcome)
    → qr.judge ≡ some j
    → IsDivergence
        (divergence_of qr
          (axis_scores factual_correctness j)
          (axis_scores grounding j)
          (axis_scores conflict_handling j))
        qr
divergence_of-IsDivergence qr j e = elim (arm-cases j.answer1_arm) [
  | inl t ↦ (j, e, refl, rw t refl, rw t refl, rw t refl)
  | inr t ↦ (j, e, refl, rw t refl, rw t refl, rw t refl)
]

-- A body that does not raise on the entries gives one value for each of them.
pub each_total :
    {A B : Type 0} (f : A → Result B) (Q : B → A → Type 0) (xs : List A)
    → All (λ x. (y : B) × (f x ≡ ok y) × Q y x) xs
    → (ys : List B) × (each f xs ≡ ok ys) × (length ys ≡ length xs) × All (λ y. Some (Q y) xs) ys
unfolding each
each_total f Q [] a = ([], refl, refl, tt)
each_total f Q (x ∷ xs) ((y, e, q), a) =
    let (ys, es, n, linked) = each_total f Q xs a in
    (
      y ∷ ys,
      rw (e, es) refl,
      omega (arith, n),
      (inl q, All-map (λ z. Some (Q z) xs) (λ z. Some (Q z) (x ∷ xs)) ys (λ z h. inr h) linked),
    )
