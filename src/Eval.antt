-- ===== src/Eval.antt =====
-- The evaluation of the two arms, with and without the belief state: the types of eval/types.py.
-- Counts of tokens and times in milliseconds, which nothing reads, are left out.
pub mod Rubric
pub mod Judge
pub mod Report
pub mod Blinding
pub mod Counts
pub mod Calibrate
pub mod Agreement
pub mod Trust
pub mod Gaps
pub mod Divergent
pub mod Arms
pub mod Pinned
pub mod Fixtures
pub mod Run
pub mod Comparable
use terrible_naming_conventi.Base.{ℕ, Option, Bool, true, false, List}
use terrible_naming_conventi.Models.{Text}

pub data ArmKind : Type 0 where
  cag rag : ArmKind

abbrev pub same_arm : ArmKind → ArmKind → Bool
same_arm cag cag = true
same_arm rag rag = true
same_arm a b = false

pub data ExpectedBehavior : Type 0 where
  factual supersession_resolved conflict_surfaced : ExpectedBehavior

pub data Axis : Type 0 where
  factual_correctness grounding conflict_handling : Axis

pub record Question : Type 0 where
  pub id : Text
  pub question_text : Text
  pub reference_answer : Text
  pub expected_behavior : ExpectedBehavior
  pub grounding : List Text

pub record AxisScore : Type 0 where
  pub score : ℕ
  pub justification : Text

pub record ArmJudgeScores : Type 0 where
  pub factual_correctness : AxisScore
  pub grounding : AxisScore
  pub conflict_handling : AxisScore

-- `getattr(scores, axis)`
abbrev pub on_axis : Axis → ArmJudgeScores → AxisScore
on_axis Axis.factual_correctness s = s.factual_correctness
on_axis Axis.grounding s = s.grounding
on_axis Axis.conflict_handling s = s.conflict_handling

pub record JudgeScores : Type 0 where
  pub answer1 : ArmJudgeScores
  pub answer2 : ArmJudgeScores

pub record JudgeOutcome : Type 0 where
  pub answer1_arm : ArmKind
  pub answer2_arm : ArmKind
  pub scores : JudgeScores

pub record ChunkRef : Type 0 where
  pub document_id : ℕ
  pub chunk_index : ℕ
  pub filename : Text

pub record ArmResult : Type 0 where
  pub answer : Text
  pub chunks : List ChunkRef
  pub belief_state_version : Option ℕ

pub record QuestionResult : Type 0 where
  pub question_id : Text
  pub question_text : Text
  pub reference_answer : Text
  pub expected_behavior : ExpectedBehavior
  pub grounding : List Text
  pub cag : ArmResult
  pub rag : ArmResult
  pub retrieval_match : Bool
  pub judge : Option JudgeOutcome

-- a grade of one arm on one question, by a human or by the judge
pub record Grade : Type 0 where
  pub question_id : Text
  pub arm : ArmKind
  pub factual_correctness : ℕ
  pub grounding : ℕ
  pub conflict_handling : ℕ

abbrev pub grade_on : Axis → Grade → ℕ
grade_on Axis.factual_correctness g = g.factual_correctness
grade_on Axis.grounding g = g.grounding
grade_on Axis.conflict_handling g = g.conflict_handling
