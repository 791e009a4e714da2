-- ===== src/Eval/Arms.antt =====
-- The two arms of the evaluation: eval/run_eval.py. The arm with the belief state and the arm without
-- it both ask the query service, whose retrieval is replaced by one that remembers what it has
-- found. The memory `Cache` is part of the state, beside the world `W` of the model and the store.
use terrible_naming_conventi.Base.{
  ℕ, Option, none, some, Bool, true, false, ◌&&◌, ◌||◌, List, [], ◌∷◌, map, ltb, leb, ◌==◌,
  same_text, if◌then◌else◌, not,
}
use terrible_naming_conventi.Errors.{Result, ok, err, raise_if, eval_invariant_error}
use terrible_naming_conventi.Act.{Act, ◌>>=◌, ◌>>◌, pure, lift}
use terrible_naming_conventi.Models.{Text, Json, Db, Postgres}
use terrible_naming_conventi.Schema.{Pydantic, BeliefStateRecord}
use terrible_naming_conventi.Sorting.{arrange}
use terrible_naming_conventi.Cag.{get_latest}
use terrible_naming_conventi.Prompting.{RetrievedChunk}
use terrible_naming_conventi.Retrieve.{Search, retrieve}
use terrible_naming_conventi.Query.{SourceChunk, QueryResponse, query_by}
use terrible_naming_conventi.Eval.{Question, ArmResult}

-- what `_RETRIEVE_CACHE` holds for a project, a question and a top_k
pub record Cached : Type 0 where
  pub project_id : ℕ
  pub query_text : Text
  pub top_k : ℕ
  pub chunks : List RetrievedChunk

abbrev pub Cache : Type 0
Cache = List Cached

unfoldable pub cached_for : ℕ → Text → ℕ → Cache → Option (List RetrievedChunk)
cached_for project_id query_text top_k [] = none
cached_for project_id query_text top_k (c ∷ cs) =
    if c.project_id == project_id && same_text c.query_text query_text && c.top_k == top_k
    then some c.chunks
    else cached_for project_id query_text top_k cs

-- the order of the keys (-score, document_id, chunk_index); the texts of UUIDs are ordered as the UUIDs
abbrev pub before : RetrievedChunk → RetrievedChunk → Bool
before c d =
    ltb d.score c.score
    || (d.score == c.score
        && (ltb c.document_id d.document_id
            || (c.document_id == d.document_id && leb c.chunk_index d.chunk_index)))

-- a call of the world, which does not touch the cache
abbrev pub beside : {W A : Type 0} → Act W A → Act (Cache × W) A
beside call (cache, w) = let (r, w') = call w in (r, (cache, w'))

module _ {W : Type 0} (real_retrieve : ℕ → Text → List ℕ → ℕ → Act W (List RetrievedChunk)) where
  -- sorted, and remembered
  abbrev pub remember :
      ℕ
      → Text
      → ℕ
      → Result (List RetrievedChunk) × (Cache × W)
      → Result (List RetrievedChunk) × (Cache × W)
  remember project_id query_text top_k (err e, state) = (err e, state)
  remember project_id query_text top_k (ok chunks, (cache, w)) =
      let sorted = arrange before chunks in
      (
        ok sorted,
        (
          record {
            project_id = project_id;
            query_text = query_text;
            top_k = top_k;
            chunks = sorted;
          }
              ∷ cache,
          w,
        ),
      )

  abbrev pub retrieve_once :
      ℕ → Text → List ℕ → ℕ → Option (List RetrievedChunk) → Act (Cache × W) (List RetrievedChunk)
  retrieve_once project_id query_text accessible_ids top_k (some cached) state = (ok cached, state)
  retrieve_once project_id query_text accessible_ids top_k none state =
      remember project_id query_text top_k
        (beside (real_retrieve project_id query_text accessible_ids top_k) state)

  unfoldable pub deterministic_retrieve :
      ℕ → Text → List ℕ → ℕ → Act (Cache × W) (List RetrievedChunk)
  unfolding cached_for
  deterministic_retrieve project_id query_text accessible_ids top_k (cache, w) =
      retrieve_once project_id query_text accessible_ids top_k
        (cached_for project_id query_text top_k cache) (cache, w)

abbrev pub chunk_keys : QueryResponse → List (ℕ × ℕ)
chunk_keys resp = map (λ (s : SourceChunk). (s.document_id, s.chunk_index)) resp.sources

abbrev pub same_keys : List (ℕ × ℕ) → List (ℕ × ℕ) → Bool
same_keys [] [] = true
same_keys ((d, i) ∷ ks) ((e, j) ∷ ls) = (d == e && i == j) && same_keys ks ls
same_keys ks ls = false

abbrev pub to_arm_result : QueryResponse → ArmResult
to_arm_result resp = record {
  answer = resp.answer;
  chunks =
      map
        (λ (s : SourceChunk). record {
          document_id = s.document_id;
          chunk_index = s.chunk_index;
          filename = s.filename;
        })
        resp.sources;
  belief_state_version = resp.belief_state_version;
}

-- `AsyncMock(return_value=None)` in place of `get_latest`
abbrev pub no_latest : ℕ → Db → Result (Option BeliefStateRecord)
no_latest project_id db = ok none

module _ (postgres : Postgres) (python : Pydantic) (json_dumps : Json → Text) (uuid_str : ℕ → Text)
    {W Dense Sparse : Type 0} (search : Search W Dense Sparse) (default_model : Text)
    (generate : Text → Text → Act W Text) where
  -- the query service with the replaced retrieval, for a way to read the latest belief state
  unfoldable pub ask :
      (ℕ → Db → Result (Option BeliefStateRecord))
      → Text
      → ℕ
      → List ℕ
      → ℕ
      → Db
      → Act (Cache × W) QueryResponse
  unfolding query_by deterministic_retrieve
  ask latest question project_id accessible_ids top_k db =
      query_by python json_dumps uuid_str default_model
        (λ model prompt. beside (generate model prompt)) (deterministic_retrieve (retrieve search))
        latest question project_id accessible_ids top_k db

  unfoldable pub run_two_arms :
      Question → ℕ → List ℕ → ℕ → Db → Act (Cache × W) (ArmResult × (ArmResult × Bool))
  unfolding ask
  run_two_arms question project_id accessible_ids top_k db = do
    cag_resp ←
        ask (get_latest postgres python) question.question_text project_id accessible_ids top_k db
    rag_resp ← ask no_latest question.question_text project_id accessible_ids top_k db
    lift (
        raise_if (not (same_keys (chunk_keys cag_resp) (chunk_keys rag_resp))) eval_invariant_error)
    pure (to_arm_result cag_resp, (to_arm_result rag_resp, true))
