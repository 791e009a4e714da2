-- ===== src/Vectors.antt =====
-- The vectors of a project: VectorStore.ensure_collection, upsert and search of
-- backend/app/ingestion/vector_store.py, _index_document of backend/app/workers/ingest.py and
-- backend/app/workers/maintenance.py. The Qdrant client, the embedders and the libraries of the
-- parser are parameters; the identifier of a point is the pair that uuid5 hashes.
pub mod Reindex
pub mod Owned
pub mod Owners
use terrible_naming_conventi.Base.{
  ℕ, Option, none, some, Bool, true, false, List, [], ◌∷◌, map, ◌==◌, codes, same_text,
  if◌then◌else◌,
}
use terrible_naming_conventi.Errors.{Result, ok, err, value_error}
use terrible_naming_conventi.Act.{Act, continue, and_then, pure, ◌>>=◌, ◌>>◌}
use terrible_naming_conventi.Models.{Document, Project, Text}
use terrible_naming_conventi.Chunks.{Chunk, ChunkingStrategy, naive, contextual, late, chunk_text}
use terrible_naming_conventi.Ingest.{get_or}
use terrible_naming_conventi.Parser.{file_type_value, parse_file}
use terrible_naming_conventi.Projects.{Client}
use terrible_naming_conventi.Retrieve.{Payload, ScoredPoint, as_qdrant_error}

-- a chunk whose metadata has the name of its file
pub record NamedChunk : Type 0 where
  pub chunk : Chunk
  pub filename : Text

-- `EmbeddingResult` and, with sparse vectors, `SparseEmbeddingResult`
pub record EmbeddingResult (Vector : Type 0) : Type 0 where
  pub chunk : NamedChunk
  pub vector : Vector

pub record PointStruct (Dense Sparse : Type 0) : Type 0 where
  pub id : ℕ × ℕ
  pub dense : Dense
  pub bm25 : Option Sparse
  pub payload : Payload

-- the Qdrant client
pub record Qdrant (W Dense Sparse : Type 0) : Type 0 where
  pub client : Client W
  pub create_collection : ℕ → Act W (Unit {0})
  pub upsert_points : ℕ → List (PointStruct Dense Sparse) → Act W (Unit {0})
  pub query_dense : ℕ → Dense → ℕ → Act W (List ScoredPoint)

-- the embedders, `settings`, and what the parser calls
pub record Indexer (W Dense Sparse : Type 0) : Type 0 where
  pub embed : List NamedChunk → Act W (List (EmbeddingResult Dense))
  pub embed_sparse : List NamedChunk → Act W (List (EmbeddingResult Sparse))
  pub decode_utf8 : List ℕ → Result Text
  pub get_pages : List ℕ → Result (List Text)
  pub default_chunk_size : ℕ
  pub default_chunk_overlap : ℕ
  pub default_chunking_strategy : Text

-- `sparse_by_index.get(index)`, where the last result of an index stays in the dictionary
abbrev pub or_vector : {V : Type 0} → Option V → ℕ → EmbeddingResult V → Option V
or_vector (some vector) index result = some vector
or_vector none index result = if result.chunk.chunk.index == index then some result.vector else none

unfoldable pub sparse_by_index : {V : Type 0} → List (EmbeddingResult V) → ℕ → Option V
sparse_by_index [] index = none
sparse_by_index (result ∷ results) index = or_vector (sparse_by_index results index) index result

abbrev pub point_of :
    {Dense Sparse : Type 0}
    → ℕ
    → ℕ
    → ℕ
    → List (EmbeddingResult Sparse)
    → EmbeddingResult Dense
    → PointStruct Dense Sparse
point_of now project_id document_id sparse_results result =
    let index = result.chunk.chunk.index in
    record {
      id = (document_id, index);
      dense = result.vector;
      bm25 = sparse_by_index sparse_results index;
      payload = record {
        document_id = document_id;
        project_id = project_id;
        chunk_index = index;
        text = result.chunk.chunk.text;
        filename = result.chunk.filename;
        created_at = now;
      };
    }

module _ {W Dense Sparse : Type 0} (qdrant : Qdrant W Dense Sparse) where
  abbrev pub create_missing : ℕ → Bool → Act W (Unit {0})
  create_missing project_id true = pure tt
  create_missing project_id false = qdrant.create_collection project_id

  unfoldable pub ensure_collection : ℕ → Act W (Unit {0})
  ensure_collection project_id w =
      as_qdrant_error
        (continue (qdrant.client.collection_exists project_id w) (create_missing project_id))

  abbrev pub store_points : ℕ → List (PointStruct Dense Sparse) → Act W (Unit {0})
  store_points project_id points w = as_qdrant_error (qdrant.upsert_points project_id points w)

  -- `now` is the time of the call.
  unfoldable pub upsert_results :
      ℕ → ℕ → List (EmbeddingResult Dense) → ℕ → List (EmbeddingResult Sparse) → Act W (Unit {0})
  unfolding ensure_collection
  upsert_results now project_id results document_id sparse_results = do
    ensure_collection project_id
    store_points project_id (map (point_of now project_id document_id sparse_results) results)

  unfoldable pub search_dense : ℕ → Dense → ℕ → Act W (List ScoredPoint)
  search_dense project_id query_vector top_k w = as_qdrant_error (
      continue (qdrant.client.collection_exists project_id w) (λ exists. elim exists [
        | true ↦ qdrant.query_dense project_id query_vector top_k
        | false ↦ pure []
      ]))

-- `ChunkingStrategy(value)`
abbrev pub strategy_of : Text → Result ChunkingStrategy
strategy_of value =
    if same_text value (codes "naive")
    then ok naive
    else if same_text value (codes "contextual")
    then ok contextual
    else if same_text value (codes "late")
    then ok late
    else err value_error

abbrev pub get_text_or : Text → Option Text → Text
get_text_or default none = default
get_text_or default (some value) = value

abbrev pub named : Text → Chunk → NamedChunk
named filename chunk = record { chunk = chunk; filename = filename }

module _ {W Dense Sparse : Type 0} (indexer : Indexer W Dense Sparse) where
  -- `asyncio.gather` on the two embedders, in the order of its arguments
  abbrev pub embed_chunks :
      List NamedChunk → Act W (List (EmbeddingResult Dense) × List (EmbeddingResult Sparse))
  embed_chunks chunks = do
    embedding_results ← indexer.embed chunks
    sparse_embedding_results ← indexer.embed_sparse chunks
    pure (embedding_results, sparse_embedding_results)

  -- the text of the document and the strategy of the project, or what is raised
  abbrev pub text_and_strategy : Document → Project → Result (Text × ChunkingStrategy)
  text_and_strategy doc project =
      elim (parse_file indexer.decode_utf8 indexer.get_pages doc.raw_bytes
        (file_type_value doc.file_type)) [
          | err e ↦ err e
          | ok text ↦
              elim (strategy_of
                (get_text_or indexer.default_chunking_strategy project.config.chunking_strategy)) [
                  | err e ↦ err e
                  | ok strategy ↦ ok (text, strategy)
                ]
        ]

  abbrev pub cut : ℕ → Project → Text → ChunkingStrategy → Option (Result (List Chunk))
  cut fuel project text strategy =
      chunk_text fuel text strategy (get_or indexer.default_chunk_size project.config.chunk_size)
        (get_or indexer.default_chunk_overlap project.config.chunk_overlap)

  abbrev pub embed_cuts :
      Document
      → Option (Result (List Chunk))
      → W
      → Option (Result (List (EmbeddingResult Dense) × List (EmbeddingResult Sparse)) × W)
  embed_cuts doc none w = none
  embed_cuts doc (some cuts) w =
      some (continue (cuts, w) (λ chunks. embed_chunks (map (named doc.filename) chunks)))

  -- `_index_document`; the fuel is the chunker's.
  unfoldable pub index_document :
      ℕ
      → Document
      → Project
      → W
      → Option (Result (List (EmbeddingResult Dense) × List (EmbeddingResult Sparse)) × W)
  index_document fuel doc project w =
      and_then (text_and_strategy doc project, w)
        (λ read. embed_cuts doc (cut fuel project read.0 read.1))
