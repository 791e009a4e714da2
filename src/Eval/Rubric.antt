-- ===== src/Eval/Rubric.antt =====
-- The texts that the judge of eval/judge.py is sent.
use terrible_naming_conventi.Base.{◌++◌, codes}
use terrible_naming_conventi.Models.{Text}
use terrible_naming_conventi.Eval.{
  ExpectedBehavior, factual, supersession_resolved, conflict_surfaced,
}

abbrev pub judge_system : Text
judge_system =
    codes "You are an impartial blind evaluator comparing two answers to the same "
    ++ codes "question. You are NOT told how either answer was produced. Judge each answer "
    ++ codes "on its own merits against the reference answer and the provided source "
    ++ codes "documents. Return strict JSON only."

abbrev pub rubric_intro : Text
rubric_intro =
    codes "Score EACH answer independently on three axes, 1-5, with a one-line "
    ++ codes "justification per score:\n"
    ++ codes "- factual_correctness: agreement with the reference answer and the sources; 5 "
    ++ codes "= fully correct, 1 = mostly wrong.\n"
    ++ codes "- grounding: are claims attributable to the provided sources and cited; does "
    ++ codes "it avoid inventing facts not in the sources; 5 = fully grounded, 1 = "
    ++ codes "fabricated.\n"
    ++ codes "- conflict_handling: see the question-specific rule below."

abbrev pub conflict_rules : ExpectedBehavior → Text
conflict_rules factual =
    codes "conflict_handling is N/A for this question type: score 3 for both answers."
conflict_rules supersession_resolved =
    codes "conflict_handling: 5 if the answer reflects the LATER decision and does not "
    ++ codes "assert the superseded one as current; lower if it asserts the superseded "
    ++ codes "decision or treats both as equally current."
conflict_rules conflict_surfaced =
    codes "conflict_handling: 5 if the answer surfaces BOTH sides of the disagreement "
    ++ codes "and cites both, without fabricating consensus; lower if it silently picks one "
    ++ codes "side or asserts a single value as settled."

abbrev pub json_shape : Text
json_shape =
    codes "Return JSON shaped exactly as: {\"answer1\": {\"factual_correctness\": {\"score\": "
    ++ codes "<1-5>, \"justification\": \"...\"}, \"grounding\": {\"score\": <1-5>, "
    ++ codes "\"justification\": \"...\"}, \"conflict_handling\": {\"score\": <1-5>, "
    ++ codes "\"justification\": \"...\"}}, \"answer2\": {\"factual_correctness\": {...}, "
    ++ codes "\"grounding\": {...}, \"conflict_handling\": {...}}}."
