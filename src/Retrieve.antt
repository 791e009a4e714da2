-- ===== src/Retrieve.antt =====
-- Retrieval (backend/app/retrieval/retriever.py) and the search it calls
-- (`VectorStore.hybrid_search` in backend/app/ingestion/vector_store.py). The embedders and the
-- Qdrant client are parameters. `asyncio.gather` is run in the order of its arguments.
pub mod Ranked
use terrible_naming_conventi.Base.{
  ℕ, ◌*◌, Option, none, some, Bool, true, false, List, [], ◌∷◌, ◌++◌, contains, any, take, not,
}
use terrible_naming_conventi.Errors.{
  Error, ok, err, raise_if, access_denied, qdrant_error, key_error,
}
use terrible_naming_conventi.Errors as Errors
use terrible_naming_conventi.Act.{Act, continue, ◌>>=◌, ◌>>◌, pure, raise, lift}
use terrible_naming_conventi.Models.{Text}
use terrible_naming_conventi.Prompting.{RetrievedChunk}
use terrible_naming_conventi.Sorting.{arrange, down}

-- the payload that `VectorStore.upsert` stores with a point
pub record Payload : Type 0 where
  pub document_id : ℕ
  pub project_id : ℕ
  pub chunk_index : ℕ
  pub text : Text
  pub filename : Text
  pub created_at : ℕ

pub record ScoredPoint : Type 0 where
  pub score : ℕ
  pub payload : Option Payload

-- `_to_chunk`: `payload = point.payload or {}`, where a missing key raises
abbrev pub chunk_of : {W : Type 0} → ℕ → ℕ → Option Payload → Act W RetrievedChunk
chunk_of project_id score none = raise key_error
chunk_of project_id score (some payload) = pure (record {
  document_id = payload.document_id;
  chunk_index = payload.chunk_index;
  text = payload.text;
  filename = payload.filename;
  score = score;
  project_id = project_id;
})

abbrev pub to_chunk : {W : Type 0} → ℕ → ScoredPoint → Act W RetrievedChunk
to_chunk project_id point = chunk_of project_id point.score point.payload

unfoldable pub to_chunks : {W : Type 0} → ℕ → List ScoredPoint → Act W (List RetrievedChunk)
to_chunks project_id [] = pure []
to_chunks project_id (point ∷ points) = do
  chunk ← to_chunk project_id point
  chunks ← to_chunks project_id points
  pure (chunk ∷ chunks)

-- `except Exception as exc: raise QdrantError(...) from exc`
abbrev pub as_qdrant_error : {W A : Type 0} → Errors.Result A × W → Errors.Result A × W
as_qdrant_error (ok a, w) = (ok a, w)
as_qdrant_error (err e, w) = (err qdrant_error, w)

-- `for project_id in project_ids: if project_id not in accessible_ids: raise`
abbrev pub is_denied : List ℕ → List ℕ → Bool
is_denied project_ids accessible_ids = any (λ p. not (contains p accessible_ids)) project_ids

-- `Dense` and `Sparse` are the embedders' vectors. The query of the client has the two prefetch
-- limits and the limit.
pub record Search (W Dense Sparse : Type 0) : Type 0 where
  pub embed_dense : Text → Act W Dense
  pub embed_sparse : Text → Act W Sparse
  pub collection_exists : ℕ → Act W Bool
  pub query_points : ℕ → Dense → Sparse → ℕ → ℕ → Act W (List ScoredPoint)

module _ {W Dense Sparse : Type 0} (search : Search W Dense Sparse) where
  abbrev pub query_existing : ℕ → Dense → Sparse → ℕ → Bool → Act W (List ScoredPoint)
  query_existing project_id dense sparse top_k true =
      search.query_points project_id dense sparse (top_k * 3) top_k
  query_existing project_id dense sparse top_k false = pure []

  unfoldable pub hybrid_search : ℕ → Dense → Sparse → ℕ → Act W (List ScoredPoint)
  hybrid_search project_id dense sparse top_k w = as_qdrant_error (
      continue (search.collection_exists project_id w)
        (query_existing project_id dense sparse top_k))

  unfoldable pub retrieve : ℕ → Text → List ℕ → ℕ → Act W (List RetrievedChunk)
  unfolding hybrid_search to_chunks
  retrieve project_id query_text accessible_ids top_k = do
    lift (raise_if (not (contains project_id accessible_ids)) access_denied)
    dense ← search.embed_dense query_text
    sparse ← search.embed_sparse query_text
    points ← hybrid_search project_id dense sparse top_k
    to_chunks project_id points

  -- the awaited calls of `asyncio.gather`, merged in their order
  unfoldable pub gather : List ℕ → Text → List ℕ → ℕ → Act W (List RetrievedChunk)
  unfolding retrieve
  gather [] query_text accessible_ids top_k = pure []
  gather (p ∷ ps) query_text accessible_ids top_k = do
    results ← retrieve p query_text accessible_ids top_k
    merged ← gather ps query_text accessible_ids top_k
    pure (results ++ merged)

  unfoldable pub retrieve_multi : List ℕ → Text → List ℕ → ℕ → Act W (List RetrievedChunk)
  unfolding gather
  retrieve_multi project_ids query_text accessible_ids top_k = do
    lift (raise_if (is_denied project_ids accessible_ids) access_denied)
    merged ← gather project_ids query_text accessible_ids top_k
    pure (take top_k (arrange (down (λ (c : RetrievedChunk). c.score)) merged))
