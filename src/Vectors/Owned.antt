-- ===== src/Vectors/Owned.antt =====
-- Whose points a collection holds after it was rebuilt (backend/app/workers/maintenance.py).
use terrible_naming_conventi.Base.{
  ℕ, ◌≡◌, refl, sym, subst, ap, ◌∙◌, Option, none, some, Bool, true, false, List, [], ◌∷◌, map,
  contains, All, All-map, arith, inl, inr,
}
use terrible_naming_conventi.Errors.{Result, ok, err, Result-cases}
use terrible_naming_conventi.Act.{Act, continue, and_then, and_then-ok}
use terrible_naming_conventi.Models.{Db, Document, Project, Text}
use terrible_naming_conventi.Chunks.{Chunk, ChunkingStrategy}
use terrible_naming_conventi.Ingest.{fetch_project}
use terrible_naming_conventi.Projects.{delete_existing, delete_collection}
use terrible_naming_conventi.Retrieve.{as_qdrant_error}
use terrible_naming_conventi.Vectors.{
  EmbeddingResult, NamedChunk, PointStruct, Qdrant, Indexer, create_missing, point_of,
  ensure_collection, upsert_results, embed_chunks, text_and_strategy, cut, named, index_document,
}
use terrible_naming_conventi.Vectors.Owners.{IsOf, owner_exists}
use terrible_naming_conventi.Vectors.Reindex.{
  fetch_project_documents, upsert_document, upsert_indexed, then_reindex, reindex_documents,
  reindex_project,
}

-- What a rebuild relies on in Qdrant and the embedders: only the calls that are meant to change the
-- points of a collection do so, a collection that is deleted or missing has none, and an upsert
-- adds no other points than those it is given.
pub record IsStore {W Dense Sparse : Type 0} (qdrant : Qdrant W Dense Sparse)
    (indexer : Indexer W Dense Sparse) (points : W → ℕ → List (PointStruct Dense Sparse))
    : Type 1 where
  pub asked : (p : ℕ) (w : W) → points (qdrant.client.collection_exists p w).1 p ≡ points w p
  pub missing :
      (p : ℕ) (w : W)
      → (qdrant.client.collection_exists p w).0 ≡ ok false
      → points (qdrant.client.collection_exists p w).1 p ≡ []
  pub deleted :
      (p : ℕ) (w : W)
      → (qdrant.client.delete_collection p w).0 ≡ ok tt
      → points (qdrant.client.delete_collection p w).1 p ≡ []
  pub created : (p : ℕ) (w : W) → points (qdrant.create_collection p w).1 p ≡ points w p
  pub upserted :
      (P : PointStruct Dense Sparse → Type 0) (p : ℕ) (new : List (PointStruct Dense Sparse))
      (w : W)
      → All P (points w p)
      → All P new
      → All P (points (qdrant.upsert_points p new w).1 p)
  pub embedded :
      (p : ℕ) (cs : List NamedChunk) (w : W) → points (indexer.embed cs w).1 p ≡ points w p
  pub embedded_sparse :
      (p : ℕ) (cs : List NamedChunk) (w : W) → points (indexer.embed_sparse cs w).1 p ≡ points w p

-- The point is of a document of the project.
abbrev pub IsOwned : {Dense Sparse : Type 0} → ℕ → List Document → PointStruct Dense Sparse → Type 0
IsOwned project_id documents x =
    (contains x.payload.document_id (map (λ (d : Document). d.id) documents) ≡ true)
    × (x.payload.project_id ≡ project_id)
    × (x.id ≡ (x.payload.document_id, x.payload.chunk_index))

-- The run has ended, in a world with P.
abbrev AfterEnd : {W A : Type 0} → (W → Type 0) → Option (Result A × W) → Type 0
AfterEnd P none = ⊥
AfterEnd P (some (r, w)) = P w

module _ {W A B : Type 0} (P : W → Type 0) where
  continue-keeps :
      (p : Result A × W) (f : A → Act W B)
      → P p.1
      → ((a : A) (w : W) → P w → P (f a w).1)
      → P (continue p f).1
  continue-keeps (ok a, w) f h k = k a w h
  continue-keeps (err e, w) f h k = h

  and_then-ends :
      (p : Result A × W) (f : A → W → Option (Result B × W))
      → P p.1
      → ((a : A) (w : W) → P w → AfterEnd P (f a w))
      → AfterEnd P (and_then p f)
  and_then-ends (ok a, w) f h k = k a w h
  and_then-ends (err e, w) f h k = h

then_reindex-ends :
    {W : Type 0} {P : W → Type 0} (o : Option (Result (Unit {0}) × W))
    (rest : W → Option (Result (Unit {0}) × W))
    → AfterEnd P o
    → ((w : W) → P w → AfterEnd P (rest w))
    → AfterEnd P (then_reindex o rest)
then_reindex-ends none rest h k = h
then_reindex-ends (some (ok u, w)) rest h k = k w h
then_reindex-ends (some (err e, w)) rest h k = h

as_qdrant_error-world : {W A : Type 0} (p : Result A × W) → (as_qdrant_error p).1 ≡ p.1
as_qdrant_error-world (ok a, w) = refl
as_qdrant_error-world (err e, w) = refl

as_qdrant_error-ok :
    {W A : Type 0} (p : Result A × W) {a : A} → (as_qdrant_error p).0 ≡ ok a → p.0 ≡ ok a
as_qdrant_error-ok (ok b, w) h = h
as_qdrant_error-ok (err e, w) h = cc

AfterEnd-ended :
    {W A : Type 0} (P : W → Type 0) (o : Option (Result A × W))
    → AfterEnd P o
    → (r : Result A) × (w : W) × (o ≡ some (r, w)) × P w
AfterEnd-ended P none h = elim h [ ]
AfterEnd-ended P (some (r, w)) h = (r, w, refl, h)

-- The chunker ends on the text of the document.
abbrev pub IsCuttable :
    {W Dense Sparse : Type 0} → Indexer W Dense Sparse → ℕ → Project → Document → Type 0
IsCuttable indexer fuel project doc =
    (text : Text) (strategy : ChunkingStrategy)
    → text_and_strategy indexer doc project ≡ ok (text, strategy)
    → (cuts : Result (List Chunk)) × (cut indexer fuel project text strategy ≡ some cuts)

module _ {W Dense Sparse : Type 0} (qdrant : Qdrant W Dense Sparse)
    (indexer : Indexer W Dense Sparse) (points : W → ℕ → List (PointStruct Dense Sparse))
    (store : IsStore qdrant indexer points) (project_id : ℕ) (owned : List Document) where
  AllOwned : W → Type 0
  AllOwned w = All (IsOwned project_id owned) (points w project_id)

  moved : {w w' : W} → points w' project_id ≡ points w project_id → AllOwned w → AllOwned w'
  unfolding AllOwned
  moved same h = subst (λ xs. All (IsOwned project_id owned) xs) (sym same) h

  create_missing-keeps :
      (exists : Bool) (w : W) → AllOwned w → AllOwned (create_missing qdrant project_id exists w).1
  create_missing-keeps true w h = h
  create_missing-keeps false w h = moved (store.created project_id w) h

  ensure_collection-keeps :
      (w : W) → AllOwned w → AllOwned (ensure_collection qdrant project_id w).1
  unfolding ensure_collection
  ensure_collection-keeps w h =
      subst AllOwned
        (sym (as_qdrant_error-world (continue (qdrant.client.collection_exists project_id w) _)))
        (continue-keeps AllOwned (qdrant.client.collection_exists project_id w) _
          (moved (store.asked project_id w) h) create_missing-keeps)

  point_of-IsOwned :
      (now document_id : ℕ) (sparse : List (EmbeddingResult Sparse))
      (results : List (EmbeddingResult Dense))
      → contains document_id (map (λ (d : Document). d.id) owned) ≡ true
      → All (IsOwned project_id owned) (map (point_of now project_id document_id sparse) results)
  point_of-IsOwned now document_id sparse [] h = tt
  point_of-IsOwned now document_id sparse (r ∷ rs) h =
      ((h, refl, refl), point_of-IsOwned now document_id sparse rs h)

  upsert_results-keeps :
      (now document_id : ℕ) (results : List (EmbeddingResult Dense))
      (sparse : List (EmbeddingResult Sparse)) (w : W)
      → contains document_id (map (λ (d : Document). d.id) owned) ≡ true
      → AllOwned w
      → AllOwned (upsert_results qdrant now project_id results document_id sparse w).1
  unfolding upsert_results AllOwned
  upsert_results-keeps now document_id results sparse w mine h =
      continue-keeps AllOwned (ensure_collection qdrant project_id w) _
        (ensure_collection-keeps w h)
        (λ done w' h'.
          subst AllOwned (sym (as_qdrant_error-world (qdrant.upsert_points project_id _ w'))) (
            store.upserted (IsOwned project_id owned) project_id _ w' h'
              (point_of-IsOwned now document_id sparse results mine)))

  embed_chunks-keeps :
      (cs : List NamedChunk) (w : W) → AllOwned w → AllOwned (embed_chunks indexer cs w).1
  embed_chunks-keeps cs w h =
      continue-keeps AllOwned (indexer.embed cs w) _ (moved (store.embedded project_id cs w) h)
        (λ dense w' h'.
          continue-keeps AllOwned (indexer.embed_sparse cs w') _
            (moved (store.embedded_sparse project_id cs w') h') (λ sparse w'' h''. h''))

  index_cuts :
      (doc : Document) (cuts : Result (List Chunk)) (w : W)
      → AllOwned w
      → AllOwned
          (continue (cuts, w) (λ chunks. embed_chunks indexer (map (named doc.filename) chunks))).1
  index_cuts doc (err e) w h = h
  index_cuts doc (ok chunks) w h = embed_chunks-keeps (map (named doc.filename) chunks) w h

  index_document-ends :
      (fuel : ℕ) (project : Project) (doc : Document) (w : W)
      → IsCuttable indexer fuel project doc
      → AllOwned w
      → AfterEnd AllOwned (index_document indexer fuel doc project w)
  unfolding index_document
  index_document-ends fuel project doc w cuttable h =
      elim (Result-cases (text_and_strategy indexer doc project)) [
        | inr (e, raised) ↦ rw (index_document, raised) h
        | inl ((text, strategy), read) ↦
            let (cuts, done) = cuttable text strategy read in
            rw (index_document, read, done) (index_cuts doc cuts w h)
      ]

  upsert_indexed-ends :
      (now : ℕ → ℕ) (doc : Document)
      (o : Option (Result (List (EmbeddingResult Dense) × List (EmbeddingResult Sparse)) × W))
      → contains doc.id (map (λ (d : Document). d.id) owned) ≡ true
      → AfterEnd AllOwned o
      → AfterEnd AllOwned (upsert_indexed qdrant now project_id doc o)
  upsert_indexed-ends now doc none mine h = h
  upsert_indexed-ends now doc (some indexed) mine h =
      continue-keeps AllOwned indexed (upsert_document qdrant now project_id doc) h
        (λ results w. upsert_results-keeps (now doc.id) doc.id results.0 results.1 w mine)

  reindex_documents-ends :
      (now : ℕ → ℕ) (fuel : ℕ) (project : Project) (documents : List Document) (w : W)
      → All (IsCuttable indexer fuel project) documents
      → All (λ (d : Document). contains d.id (map (λ (x : Document). x.id) owned) ≡ true) documents
      → AllOwned w
      → AfterEnd AllOwned (reindex_documents qdrant indexer now fuel project_id project documents w)
  unfolding reindex_documents
  reindex_documents-ends now fuel project [] w cuttable mine h = h
  reindex_documents-ends now fuel project (d ∷ ds) w cuttable mine h =
      then_reindex-ends
        (upsert_indexed qdrant now project_id d (index_document indexer fuel d project w)) _
        (upsert_indexed-ends now d (index_document indexer fuel d project w) mine.0
          (index_document-ends fuel project d w cuttable.0 h))
        (λ w'. reindex_documents-ends now fuel project ds w' cuttable.1 mine.1)

  delete_existing-empty :
      (p : Result Bool × W)
      → (p.0 ≡ ok false → points p.1 project_id ≡ [])
      → (as_qdrant_error (continue p (delete_existing qdrant.client project_id))).0 ≡ ok tt
      → points
          (as_qdrant_error (continue p (delete_existing qdrant.client project_id))).1
          project_id
        ≡ []
  delete_existing-empty (err e, w) none_left h = cc
  delete_existing-empty (ok false, w) none_left h = none_left refl
  delete_existing-empty (ok true, w) none_left h =
      ap (λ w'. points w' project_id)
        (as_qdrant_error-world (qdrant.client.delete_collection project_id w))
      ∙ store.deleted project_id w
          (as_qdrant_error-ok (qdrant.client.delete_collection project_id w) h)

  delete_collection-AllOwned :
      (w : W)
      → (delete_collection qdrant.client project_id w).0 ≡ ok tt
      → AllOwned (delete_collection qdrant.client project_id w).1
  unfolding delete_collection AllOwned
  delete_collection-AllOwned w h =
      subst (λ xs. All (IsOwned project_id owned) xs)
        (sym (
          delete_existing-empty (qdrant.client.collection_exists project_id w)
            (store.missing project_id w) h))
        tt

documents-contained :
    (documents : List Document)
    → All
        (λ (d : Document). contains d.id (map (λ (x : Document). x.id) documents) ≡ true)
        documents
documents-contained [] = tt
documents-contained (d ∷ ds) =
    (ground arith, All-map _ _ ds (λ x h. ground arith) (documents-contained ds))

module _ {W Dense Sparse : Type 0} (qdrant : Qdrant W Dense Sparse)
    (indexer : Indexer W Dense Sparse) (points : W → ℕ → List (PointStruct Dense Sparse))
    (store : IsStore qdrant indexer points) where
  -- Where the project exists, the deletion of its collection returns and the chunker ends on each
  -- of its documents, a reindexing ends, and whether it returns or raises, each point that is then
  -- in the collection is of a document that the tables have in the project, names the project, and
  -- has the identifier of its document and index.
  pub reindex_project-IsOwned :
      (now : ℕ → ℕ) (fuel project_id : ℕ) (db : Db) (project : Project) (w : W)
      → let documents = fetch_project_documents project_id db in
        fetch_project project_id db ≡ ok project
        → All (IsCuttable indexer fuel project) documents
        → (delete_collection qdrant.client project_id w).0 ≡ ok tt
        → (r : Result (Unit {0})) × (w' : W) × (reindex_project qdrant indexer now fuel project_id
              db w
            ≡ some (r, w'))
          × All (IsOf project_id db) (points w' project_id)
  unfolding reindex_project AllOwned
  reindex_project-IsOwned now fuel project_id db project w found cuttable gone =
      let documents = fetch_project_documents project_id db in
      let emptied = (delete_collection qdrant.client project_id w).1 in
      let (r, w', ended, owned) =
        AfterEnd-ended (AllOwned qdrant indexer points store project_id documents)
          (reindex_project qdrant indexer now fuel project_id db w)
          (subst (AfterEnd (AllOwned qdrant indexer points store project_id documents))
            (sym (
              and_then-ok (fetch_project project_id db, w) _ found
              ∙ and_then-ok (delete_collection qdrant.client project_id w) _ gone))
            (and_then-ends (AllOwned qdrant indexer points store project_id documents)
              (ensure_collection qdrant project_id emptied) _
              (ensure_collection-keeps qdrant indexer points store project_id documents emptied (
                delete_collection-AllOwned qdrant indexer points store project_id documents w gone))
              (λ done w'.
                reindex_documents-ends qdrant indexer points store project_id documents now fuel
                  project documents w' cuttable (documents-contained documents)))) in
      (
        r,
        w',
        ended,
        All-map (IsOwned project_id documents) (IsOf project_id db) (points w' project_id)
            (λ x h. (owner_exists project_id x.payload.document_id db.documents h.0, h.1, h.2))
            owned,
      )
