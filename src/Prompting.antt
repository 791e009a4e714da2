-- ===== src/Prompting.antt =====
-- The prompt of a question: backend/app/retrieval/prompting.py. `json_dumps` and `uuid_str` print
-- the belief state and an id.
pub mod Seal
use terrible_naming_conventi.Base.{
  ℕ, suc, ◌+◌, Option, none, some, Bool, List, [], ◌∷◌, ◌++◌, codes, replace, decimal,
  if◌then◌else◌,
}
use terrible_naming_conventi.Models.{Text, Json}
use terrible_naming_conventi.Schema.{BeliefStateContent, Pydantic}

-- The score of a chunk is only compared, so it is a natural number.
pub record RetrievedChunk : Type 0 where
  pub document_id : ℕ
  pub chunk_index : ℕ
  pub text : Text
  pub filename : Text
  pub score : ℕ
  pub project_id : ℕ

abbrev pub state_end : Text
state_end = codes "</project_state>"

abbrev pub sources_end : Text
sources_end = codes "</sources>"

-- `_DATA_SEAL_REPLACEMENTS`
abbrev pub state_end_escaped : Text
state_end_escaped = codes "<\\/project_state>"

abbrev pub sources_end_escaped : Text
sources_end_escaped = codes "<\\/sources>"

-- `_seal`
unfoldable pub seal : Text → Text
seal text = replace sources_end sources_end_escaped (replace state_end state_end_escaped text)

-- `"\n".join(lines)`
abbrev pub join_lines : List Text → Text
join_lines [] = []
join_lines (line ∷ []) = line
join_lines (line ∷ l ∷ ls) = line ++ codes "\n" ++ join_lines (l ∷ ls)

module _ (python : Pydantic) (json_dumps : Json → Text) (uuid_str : ℕ → Text) where
  unfoldable pub chunk_header : Bool → ℕ → RetrievedChunk → Text
  unfolding seal
  chunk_header include_project_id index chunk =
      codes "[S"
      ++ decimal index
      ++ codes "] filename=\""
      ++ seal chunk.filename
      ++ codes "\" "
      ++ codes "document_id=\""
      ++ uuid_str chunk.document_id
      ++ codes "\" chunk="
      ++ decimal chunk.chunk_index
      ++ (if include_project_id
          then codes " project_id=\"" ++ uuid_str chunk.project_id ++ codes "\""
          else [])

  unfoldable pub source_lines : Bool → ℕ → List RetrievedChunk → List Text
  unfolding chunk_header seal
  source_lines include_project_id index [] = []
  source_lines include_project_id index (chunk ∷ chunks) =
      chunk_header include_project_id index chunk
      ∷ seal chunk.text
      ∷ []
      ∷ source_lines include_project_id (suc index) chunks

  unfoldable pub state_lines : Option BeliefStateContent → List Text
  unfolding seal
  state_lines none = codes "(no project state available)" ∷ []
  state_lines (some belief_state) =
      codes "<project_state>" ∷ seal (json_dumps (python.model_dump belief_state)) ∷ state_end ∷ []

  unfoldable pub build_user_prompt :
      Option BeliefStateContent → List RetrievedChunk → Text → Bool → Text
  unfolding state_lines source_lines
  build_user_prompt belief_state chunks question include_project_id = join_lines (
      state_lines belief_state
      ++ ([] ∷ codes "<sources>" ∷ [])
      ++ source_lines include_project_id 1 chunks
      ++ (sources_end ∷ [] ∷ codes "Question:" ∷ question ∷ []))
