-- ===== src/Vectors/Reindex.antt =====
-- The maintenance job reindex_project of backend/app/workers/maintenance.py.
use terrible_naming_conventi.Base.{Option, none, some, List, [], ◌∷◌, ℕ, filter, ◌==◌}
use terrible_naming_conventi.Errors.{Result, ok}
use terrible_naming_conventi.Act.{Act, continue, and_then}
use terrible_naming_conventi.Models.{Db, Document, Project}
use terrible_naming_conventi.Ingest.{fetch_project}
use terrible_naming_conventi.Projects.{delete_collection}
use terrible_naming_conventi.Vectors.{
  EmbeddingResult, Qdrant, Indexer, ensure_collection, upsert_results, index_document,
}

-- `_fetch_project_documents`
abbrev pub fetch_project_documents : ℕ → Db → List Document
fetch_project_documents project_id db =
    filter (λ (d : Document). d.project_id == project_id) db.documents

module _ {W Dense Sparse : Type 0} (qdrant : Qdrant W Dense Sparse) (now : ℕ → ℕ)
    (project_id : ℕ) where
  -- the upsert of what a document was indexed to; `now` is the time of each document's upsert
  abbrev pub upsert_document :
      Document → List (EmbeddingResult Dense) × List (EmbeddingResult Sparse) → Act W (Unit {0})
  upsert_document doc results =
      upsert_results qdrant (now doc.id) project_id results.0 doc.id results.1

  abbrev pub upsert_indexed :
      Document
      → Option (Result (List (EmbeddingResult Dense) × List (EmbeddingResult Sparse)) × W)
      → Option (Result (Unit {0}) × W)
  upsert_indexed doc none = none
  upsert_indexed doc (some indexed) = some (continue indexed (upsert_document doc))

abbrev pub then_reindex :
    {W : Type 0}
    → Option (Result (Unit {0}) × W)
    → (W → Option (Result (Unit {0}) × W))
    → Option (Result (Unit {0}) × W)
then_reindex none rest = none
then_reindex (some done) rest = and_then done (λ _. rest)

module _ {W Dense Sparse : Type 0} (qdrant : Qdrant W Dense Sparse)
    (indexer : Indexer W Dense Sparse) (now : ℕ → ℕ) (fuel project_id : ℕ) where
  unfoldable pub reindex_documents : Project → List Document → W → Option (Result (Unit {0}) × W)
  reindex_documents project [] w = some (ok tt, w)
  reindex_documents project (doc ∷ documents) w =
      then_reindex
        (upsert_indexed qdrant now project_id doc (index_document indexer fuel doc project w))
        (reindex_documents project documents)

  unfoldable pub reindex_project : Db → W → Option (Result (Unit {0}) × W)
  unfolding reindex_documents
  reindex_project db w =
      and_then (fetch_project project_id db, w)
        (λ project w'. and_then (delete_collection qdrant.client project_id w') (λ _ w''.
          and_then (ensure_collection qdrant project_id w'')
            (λ _. reindex_documents project (fetch_project_documents project_id db))))
