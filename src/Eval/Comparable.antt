-- ===== src/Eval/Comparable.antt =====
-- What every result of a run says (eval/run_eval.py).
use terrible_naming_conventi.Base.{
  ℕ, ◌≡◌, refl, ap, sym, ◌∙◌, subst, Option, none, some, Bool, true, false, List, [], ◌∷◌, All, map,
}
use terrible_naming_conventi.Errors.{Result, ok, err, ok-injective}
use terrible_naming_conventi.Act.{Act, continue-eq-ok}
use terrible_naming_conventi.Models.{Text, Json, Db, Postgres}
use terrible_naming_conventi.Schema.{Pydantic}
use terrible_naming_conventi.Cag.{get_latest}
use terrible_naming_conventi.Retrieve.{Search}
use terrible_naming_conventi.Eval.{
  same_arm, Question, JudgeScores, JudgeOutcome, ArmResult, QuestionResult,
}
use terrible_naming_conventi.Eval.Judge.{
  Message, build_judge_messages, call_and_parse, judge_question,
}
use terrible_naming_conventi.Eval.Agreement.{IsPaired}
use terrible_naming_conventi.Eval.Arms.{Cache, ask, no_latest, to_arm_result, run_two_arms}
use terrible_naming_conventi.Eval.Pinned.{run_two_arms_agree}
use terrible_naming_conventi.Eval.Fixtures.{FixtureDoc, corpus_text_for}
use terrible_naming_conventi.Eval.Run.{
  judged_result, run_question, run_questions, run_arms_and_judge,
}

-- The arms saw the same chunks, the second one no belief state.
abbrev pub IsSameEvidence : ArmResult × (ArmResult × Bool) → Type 0
IsSameEvidence arms =
    (arms.0.chunks ≡ arms.1.0.chunks) × (arms.1.0.belief_state_version ≡ none) × (arms.1.1 ≡ true)

-- The two answers were found with the same chunks, the second without a belief state, and were
-- judged as of different arms.
abbrev pub IsComparable : QuestionResult → Type 0
IsComparable qr = IsSameEvidence (qr.cag, (qr.rag, qr.retrieval_match)) × IsPaired qr

some-injective : {A : Type 0} {x y : A} → some x ≡ some y → x ≡ y
some-injective h = cc

returned : {W A : Type 0} (p : Result A × W) {a : A} → p.0 ≡ ok a → p ≡ (ok a, p.1)
returned (ok b, w) h = cc
returned (err e, w) h = cc

module _ {W : Type 0} (parse_judge_json : Text → Option JudgeScores) (error_text : Text → Text)
    (llm : List Message → Act W Text) where
  judge_question_pairs :
      (question : Question) (x y : Text) (texts : List Text) (coin : Bool) (w : W)
      {o : JudgeOutcome}
      → (judge_question parse_judge_json error_text llm question x y texts coin w).0 ≡ ok o
      → same_arm o.answer1_arm o.answer2_arm ≡ false
  unfolding judge_question
  judge_question_pairs question x y texts true w h =
      let (s, e, h2) =
        continue-eq-ok
          (call_and_parse parse_judge_json error_text llm (build_judge_messages question x y texts)
            w)
          _ h in
      ap (λ (o : JudgeOutcome). same_arm o.answer1_arm o.answer2_arm) (sym (ok-injective h2))
  judge_question_pairs question x y texts false w h =
      let (s, e, h2) =
        continue-eq-ok
          (call_and_parse parse_judge_json error_text llm (build_judge_messages question y x texts)
            w)
          _ h in
      ap (λ (o : JudgeOutcome). same_arm o.answer1_arm o.answer2_arm) (sym (ok-injective h2))

module _ (postgres : Postgres) (python : Pydantic) (json_dumps : Json → Text) (uuid_str : ℕ → Text)
    {W Dense Sparse R : Type 0} (search : Search W Dense Sparse) (default_model : Text)
    (generate : Text → Text → Act W Text) (parse_judge_json : Text → Option JudgeScores)
    (error_text : Text → Text) (judge_llm : List Message → Act W Text) (flip : R → Bool × R)
    (corpus : List FixtureDoc) (pid k : ℕ) (db : Db) where
  arms-IsSameEvidence :
      (question : Question) (s : Cache × W) {arms : ArmResult × (ArmResult × Bool)}
      → (run_two_arms postgres python json_dumps uuid_str search default_model generate question pid
          (pid ∷ [])
          k
          db
          s).0
        ≡ ok arms
      → IsSameEvidence arms
  unfolding run_two_arms
  arms-IsSameEvidence question s h =
      let ask_by = ask postgres python json_dumps uuid_str search default_model generate in
      let q = question.question_text in
      let first = ask_by (get_latest postgres python) q pid (pid ∷ []) k db s in
      let (c, e1, h2) = continue-eq-ok first _ h in
      let second = ask_by no_latest q pid (pid ∷ []) k db first.1 in
      let (r, e2, h3) = continue-eq-ok second _ h2 in
      let (result, same, unnamed) =
        run_two_arms_agree postgres python json_dumps uuid_str search default_model generate
          question pid (pid ∷ []) k db s first.1 second.1 (returned first e1)
          (returned second e2) in
      let made : (to_arm_result c, (to_arm_result r, true)) ≡ _ =
        ok-injective (sym (ap (λ t. t.0) result) ∙ h) in
      subst IsSameEvidence made (same, unnamed, refl)

  judged_result-IsComparable :
      (question : Question) (rng : R) (arms : ArmResult × (ArmResult × Bool)) (s : Cache × W)
      {qr : QuestionResult}
      → IsSameEvidence arms
      → (judged_result postgres python json_dumps uuid_str search default_model generate
          parse_judge_json error_text judge_llm flip corpus pid k db question rng arms s).0
        ≡ ok qr
      → IsComparable qr × (qr.question_id ≡ question.id)
  unfolding judged_result
  judged_result-IsComparable question rng arms s evidence h =
      let (texts, e, h2) = continue-eq-ok (corpus_text_for corpus question.grounding, s) _ h in
      let call =
        judge_question parse_judge_json error_text judge_llm question arms.0.answer arms.1.0.answer
          texts (flip rng).0 s.1 in
      let (o, e2, h3) = continue-eq-ok (call.0, (s.0, call.1)) _ h2 in
      let paired =
        judge_question_pairs parse_judge_json error_text judge_llm question arms.0.answer
          arms.1.0.answer texts (flip rng).0 s.1 e2 in
      subst (λ (x : QuestionResult). IsComparable x × (x.question_id ≡ question.id))
        (ok-injective h3)
        (
          (
            evidence,
            λ j ej.
                subst (λ (o : JudgeOutcome). same_arm o.answer1_arm o.answer2_arm ≡ false)
                  (some-injective ej) paired,
          ),
          refl,
        )

  -- One comparable result for each question, in their order.
  abbrev pub IsRun : List Question → List QuestionResult → Type 0
  IsRun questions results =
      All IsComparable results
      × (map (λ (x : QuestionResult). x.question_id) results
          ≡ map (λ (q : Question). q.id) questions)

  run_questions-IsRun :
      (questions : List Question) (rng : R) (s : Cache × W) {results : List QuestionResult}
      → (run_questions postgres python json_dumps uuid_str search default_model generate
          parse_judge_json error_text judge_llm flip corpus pid k db questions rng s).0
        ≡ ok results
      → IsRun questions results
  unfolding run_questions run_question
  run_questions-IsRun [] rng s h = subst (IsRun []) (ok-injective h) (tt, refl)
  run_questions-IsRun (question ∷ questions) rng s h =
      let one =
        run_question postgres python json_dumps uuid_str search default_model generate
          parse_judge_json error_text judge_llm flip corpus pid k db question rng s in
      let (qr, e, h2) = continue-eq-ok one _ h in
      let (arms, ea, hj) =
        continue-eq-ok
          (run_two_arms postgres python json_dumps uuid_str search default_model generate question
            pid (pid ∷ []) k db s)
          _ e in
      let (comparable, named) =
        judged_result-IsComparable question rng arms _ (arms-IsSameEvidence question s ea) hj in
      let (rest, er, h3) =
        continue-eq-ok
          (run_questions postgres python json_dumps uuid_str search default_model generate
            parse_judge_json error_text judge_llm flip corpus pid k db questions (flip rng).1 one.1)
          _ h2 in
      let (all, ids) = run_questions-IsRun questions (flip rng).1 one.1 er in
      subst (IsRun (question ∷ questions)) (ok-injective h3) (
        (comparable, all),
        ap (λ i. i ∷ map (λ (x : QuestionResult). x.question_id) rest) named
            ∙ ap (λ is. question.id ∷ is) ids,
      )

  -- A run that ends has one result for each question, in their order. In each of them both arms
  -- saw the same chunks, the second arm saw no belief state, and the two answers were judged as of
  -- different arms, whatever the store, the models and the generator return.
  pub run_arms_and_judge-IsRun :
      (questions : List Question) (rng : R) (s : Cache × W) {results : List QuestionResult}
      → (run_arms_and_judge postgres python json_dumps uuid_str search default_model generate
          parse_judge_json error_text judge_llm flip corpus pid k db questions rng s).0
        ≡ ok results
      → IsRun questions results
  unfolding run_arms_and_judge
  run_arms_and_judge-IsRun questions rng (cache, w) h = run_questions-IsRun questions rng ([], w) h
