-- ===== src/Query.antt =====
-- Answering questions: backend/app/services/query.py. The language model is the parameter
-- `generate`; times and log lines are not modelled.
pub mod Answers
use terrible_naming_conventi.Base.{
  ℕ, suc, ◌<◌, Option, none, some, Bool, true, false, ◌||◌, List, [], ◌∷◌, ◌++◌, is_blank, ltb,
  length, codes, decimal, if◌then◌else◌, find, ◌==◌, not,
}
use terrible_naming_conventi.Errors.{
  Error, Result, ok, err, raise_if, or_raise, invalid_query, project_not_found, query_generation,
  timeout_error, llm_error, invalid_belief_state, belief_state_not_found,
}
use terrible_naming_conventi.Act.{Act, ◌>>=◌, ◌>>◌, pure, raise, lift}
use terrible_naming_conventi.Models.{Text, Json, Db, Project, Postgres}
use terrible_naming_conventi.Schema.{Pydantic, BeliefStateRecord, BeliefStateContent}
use terrible_naming_conventi.Cag.{get_latest}
use terrible_naming_conventi.Prompting.{RetrievedChunk, build_user_prompt}
use terrible_naming_conventi.Retrieve.{Search, retrieve, retrieve_multi}

pub record SourceChunk : Type 0 where
  pub document_id : ℕ
  pub filename : Text
  pub chunk_index : ℕ
  pub text : Text
  pub score : ℕ
  pub label : Text
  pub project_id : ℕ

pub record QueryResponse : Type 0 where
  pub answer : Text
  pub sources : List SourceChunk
  pub belief_state_version : Option ℕ
  pub grounded : Bool

-- `_to_source_chunks`, from the given index
abbrev pub to_source_chunks : ℕ → List RetrievedChunk → List SourceChunk
to_source_chunks index [] = []
to_source_chunks index (chunk ∷ chunks) =
    record {
      document_id = chunk.document_id;
      filename = chunk.filename;
      chunk_index = chunk.chunk_index;
      text = chunk.text;
      score = chunk.score;
      label = codes "S" ++ decimal index;
      project_id = chunk.project_id;
    }
    ∷ to_source_chunks (suc index) chunks

-- `_validate_question` with MAX_QUESTION_LENGTH; the empty question is blank as well
abbrev pub is_invalid : Text → Bool
is_invalid question = is_blank question || ltb 4000 (length question)

-- the except clauses around `get_latest` and around `_generate_answer`
abbrev pub ignore_corrupt : Result (Option BeliefStateRecord) → Result (Option BeliefStateRecord)
ignore_corrupt (err invalid_belief_state) = ok none
ignore_corrupt (err belief_state_not_found) = ok none
ignore_corrupt r = r

abbrev pub generation_error : Error → Error
generation_error timeout_error = query_generation
generation_error llm_error = query_generation
generation_error e = e

abbrev pub as_query_generation : {W A : Type 0} → Result A × W → Result A × W
as_query_generation (ok a, w) = (ok a, w)
as_query_generation (err e, w) = (err (generation_error e), w)

abbrev pub is_empty : {A : Type 0} → List A → Bool
is_empty [] = true
is_empty (x ∷ xs) = false

abbrev pub state_version : Option BeliefStateRecord → Option ℕ
state_version none = none
state_version (some b) = some b.version

-- `QueryResponse(...)` where nothing is indexed, and after the model's answer
abbrev pub no_content : Text → QueryResponse
no_content message = record {
  answer = message;
  sources = [];
  belief_state_version = none;
  grounded = false;
}

abbrev pub answered : Text → List RetrievedChunk → Option BeliefStateRecord → QueryResponse
answered text chunks belief_record = record {
  answer = text;
  sources = to_source_chunks 1 chunks;
  belief_state_version = state_version belief_record;
  grounded = not (is_empty chunks);
}

-- `project.config.get("query_model", settings.litellm_query_model)`
abbrev pub query_model : Text → Project → Text
query_model default project = elim project.config.query_model [ none ↦ default | some m ↦ m ]

abbrev pub state_of_record : Option BeliefStateRecord → Option BeliefStateContent
state_of_record none = none
state_of_record (some b) = some b.state

-- `session.get(Project, project_id)`, or ProjectNotFoundError
abbrev pub get_project : ℕ → Db → Result Project
get_project project_id db =
    or_raise (find (λ (p : Project). p.id == project_id) db.projects) project_not_found

-- `generate model prompt` is the model's answer within the time limit, `default_model` the
-- configured one.
module _ (python : Pydantic) (json_dumps : Json → Text) (uuid_str : ℕ → Text) {W : Type 0}
    (default_model : Text) (generate : Text → Text → Act W Text) where
  abbrev pub generate_answer : Text → Text → Act W Text
  generate_answer model user_prompt w = as_query_generation (generate model user_prompt w)

  -- the answer from the material found
  unfoldable pub answer_from :
      Text → Bool → Option BeliefStateRecord → List RetrievedChunk → Text → Act W QueryResponse
  answer_from model include_project_id belief_record chunks question = do
    text ← generate_answer model (
        build_user_prompt python json_dumps uuid_str (state_of_record belief_record) chunks question
          include_project_id)
    pure (answered text chunks belief_record)

  -- `if not chunks and belief_state is None: return ...`
  abbrev pub answer_or_none :
      Text → Option BeliefStateRecord → List RetrievedChunk → Text → Act W QueryResponse
  answer_or_none model none [] question =
      pure (no_content (codes "No indexed content is available for this project yet."))
  answer_or_none model belief_record chunks question =
      answer_from model false belief_record chunks question

  -- with `retrieve` and `cag_service.get_latest`, which the evaluation replaces by others
  module _ (retrieve_fn : ℕ → Text → List ℕ → ℕ → Act W (List RetrievedChunk))
      (get_latest_fn : ℕ → Db → Result (Option BeliefStateRecord)) where
    -- the steps after the project and its belief state are known, and after the project is
    unfoldable pub answer_with :
        Text → ℕ → List ℕ → ℕ → Project → Option BeliefStateRecord → Act W QueryResponse
    answer_with question project_id accessible_ids top_k project belief_record = do
      chunks ← retrieve_fn project_id question accessible_ids top_k
      answer_or_none (query_model default_model project) belief_record chunks question

    unfoldable pub answer_for : Text → ℕ → List ℕ → ℕ → Db → Project → Act W QueryResponse
    unfolding answer_with
    answer_for question project_id accessible_ids top_k db project = do
      belief_record ← lift (ignore_corrupt (get_latest_fn project_id db))
      answer_with question project_id accessible_ids top_k project belief_record

    unfoldable pub query_by : Text → ℕ → List ℕ → ℕ → Db → Act W QueryResponse
    unfolding answer_for
    query_by question project_id accessible_ids top_k db = do
      lift (raise_if (is_invalid question) invalid_query)
      project ← lift (get_project project_id db)
      answer_for question project_id accessible_ids top_k db project

  abbrev pub answer_across : List RetrievedChunk → Text → Act W QueryResponse
  answer_across [] question =
      pure (no_content (codes "No indexed content is available across any accessible projects."))
  answer_across (c ∷ cs) question = answer_from default_model true none (c ∷ cs) question

module _ (postgres : Postgres) (python : Pydantic) (json_dumps : Json → Text) (uuid_str : ℕ → Text)
    {W Dense Sparse : Type 0} (search : Search W Dense Sparse) (default_model : Text)
    (generate : Text → Text → Act W Text) where
  unfoldable pub query : Text → ℕ → List ℕ → ℕ → Db → Act W QueryResponse
  unfolding query_by retrieve
  query question project_id accessible_ids top_k db =
      query_by python json_dumps uuid_str default_model generate (retrieve search)
        (get_latest postgres python) question project_id accessible_ids top_k db

  -- `if accessible_ids: chunks = await retrieve_multi(...)`
  abbrev pub retrieve_accessible : Text → List ℕ → ℕ → Act W (List RetrievedChunk)
  retrieve_accessible question [] top_k = pure []
  retrieve_accessible question (p ∷ ps) top_k =
      retrieve_multi search (p ∷ ps) question (p ∷ ps) top_k

  unfoldable pub query_cross_project : Text → List ℕ → ℕ → Act W QueryResponse
  query_cross_project question accessible_ids top_k = do
    lift (raise_if (is_invalid question) invalid_query)
    chunks ← retrieve_accessible question accessible_ids top_k
    answer_across python json_dumps uuid_str default_model generate chunks question
