-- ===== src/Tests/Running.antt =====
-- A run of the evaluation with one question (eval/run_eval.py).
use terrible_naming_conventi.Base.{ℕ, ◌≡◌, refl, none, some, Bool, true, List, [], ◌∷◌, codes, ltb}
use terrible_naming_conventi.Errors.{ok}
use terrible_naming_conventi.Samples.Sql.{postgres}
use terrible_naming_conventi.Samples.Codec.{pydantic}
use terrible_naming_conventi.Sorting.{arrange, insert_row}
use terrible_naming_conventi.Prompting.{RetrievedChunk}
use terrible_naming_conventi.Retrieve.{hybrid_search, retrieve, to_chunks}
use terrible_naming_conventi.Query.{
  QueryResponse, answered, query_by, answer_for, answer_with, answer_from,
}
use terrible_naming_conventi.Cag.{get_latest, first_record}
use terrible_naming_conventi.Eval.{cag, rag, factual, Question, ChunkRef, ArmResult, QuestionResult}
use terrible_naming_conventi.Eval.Judge.{
  build_judge_messages, judge_attempts, call_and_parse, judge_question,
}
use terrible_naming_conventi.Eval.Arms.{
  Cache, cached_for, deterministic_retrieve, ask, no_latest, run_two_arms,
}
use terrible_naming_conventi.Eval.Pinned.{run_two_arms_agree}
use terrible_naming_conventi.Eval.Fixtures.{FixtureDoc, corpus_text_for, text_of}
use terrible_naming_conventi.Eval.Run.{
  judged_result, run_question, run_questions, run_arms_and_judge,
}
use terrible_naming_conventi.Eval.Comparable.{IsRun, run_arms_and_judge-IsRun}
use terrible_naming_conventi.Tests.Accounts.{office}
use terrible_naming_conventi.Tests.Asking.{store, print, dumps, reply, chunk}
use terrible_naming_conventi.Tests.Judging.{parse, no_text, judge, all_at}

abbrev question : Question
question = record {
  id = codes "q1";
  question_text = codes "q";
  reference_answer = [];
  expected_behavior = factual;
  grounding = codes "d" ∷ [];
}

abbrev corpus : List FixtureDoc
corpus = record { id = codes "d"; filename = codes "d.md"; text = codes "text" } ∷ []

abbrev flip : ℕ → Bool × ℕ
flip n = (ltb 0 n, n)

-- the better chunk first
abbrev found : List RetrievedChunk
found = chunk 7 2 9 ∷ chunk 7 1 3 ∷ []

abbrev reference : ℕ → ChunkRef
reference id = record { document_id = id; chunk_index = 0; filename = codes "f.md" }

abbrev arm : ArmResult
arm = record {
  answer = codes "[S1]";
  chunks = reference 2 ∷ reference 1 ∷ [];
  belief_state_version = none;
}

abbrev expected : QuestionResult
expected = record {
  question_id = codes "q1";
  question_text = codes "q";
  reference_answer = [];
  expected_behavior = factual;
  grounding = codes "d" ∷ [];
  cag = arm;
  rag = arm;
  retrieval_match = true;
  judge = some (record {
    answer1_arm = rag;
    answer2_arm = cag;
    scores = record { answer1 = all_at 1; answer2 = all_at 5 };
  });
}

abbrev response : QueryResponse
response = answered (codes "[S1]") found none

abbrev filled : Cache
filled = record { project_id = 7; query_text = codes "q"; top_k = 2; chunks = found } ∷ []

first_arm :
    ask postgres pydantic dumps print store
      (codes "m")
      reply
      (get_latest postgres pydantic)
      (codes "q")
      7
      (7 ∷ [])
      2
      office
      ([], 0)
    ≡ (ok response, (filled, 5))
unfolding ask query_by answer_for answer_with answer_from deterministic_retrieve cached_for retrieve
    hybrid_search to_chunks get_latest first_record arrange insert_row
first_arm = refl

second_arm :
    ask postgres pydantic dumps print store
      (codes "m")
      reply
      no_latest
      (codes "q")
      7
      (7 ∷ [])
      2
      office
      (filled, 5)
    ≡ (ok response, (filled, 6))
unfolding ask query_by answer_for answer_with answer_from deterministic_retrieve cached_for
second_arm = refl

run_two_arms_agree_example :
    (run_two_arms postgres pydantic dumps print store
        (codes "m")
        reply
        question
        7
        (7 ∷ [])
        2
        office
        ([], 0)
      ≡ (ok (arm, (arm, true)), (filled, 6)))
    × (arm.chunks ≡ arm.chunks)
    × (response.belief_state_version ≡ none)
run_two_arms_agree_example =
    run_two_arms_agree postgres pydantic dumps print store (codes "m") reply question 7 (7 ∷ []) 2
      office ([], 0) (filled, 5) (filled, 6) first_arm second_arm

ran :
    (run_arms_and_judge postgres pydantic dumps print store
      (codes "m")
      reply
      parse
      no_text
      judge
      flip
      corpus
      7
      2
      office
      (question ∷ [])
      0
      ([], 0)).0
    ≡ ok (expected ∷ [])
unfolding run_arms_and_judge run_questions run_question judged_result corpus_text_for text_of
    run_two_arms ask query_by answer_for answer_with answer_from deterministic_retrieve cached_for
    retrieve hybrid_search to_chunks get_latest first_record arrange insert_row judge_question
    call_and_parse judge_attempts build_judge_messages
ran = refl

run_arms_and_judge-IsRun_example :
    IsRun postgres pydantic dumps print store
      (codes "m")
      reply
      parse
      no_text
      judge
      flip
      corpus
      7
      2
      office
      (question ∷ [])
      (expected ∷ [])
run_arms_and_judge-IsRun_example =
    run_arms_and_judge-IsRun postgres pydantic dumps print store (codes "m") reply parse no_text
      judge flip corpus 7 2 office (question ∷ []) 0 ([], 0) ran
