-- ===== src/Tests/Reindexing.antt =====
-- A project whose collection is rebuilt (backend/app/workers/maintenance.py).
use terrible_naming_conventi.Base.{
  ℕ, ◌≡◌, refl, sym, ap, ◌∙◌, subst, Option, none, some, List, [], ◌∷◌, All, map, codes,
}
use terrible_naming_conventi.Errors.{Result, ok, err, ok-injective, not_implemented}
use terrible_naming_conventi.Models.{Db, Document, txt, Text}
use terrible_naming_conventi.Chunks.{Chunk, naive, contextual, late, chunk_text}
use terrible_naming_conventi.Vectors.{
  PointStruct, cut, text_and_strategy, ensure_collection, upsert_results, index_document,
}
use terrible_naming_conventi.Parser.{parse_file}
use terrible_naming_conventi.Projects.{delete_collection}
use terrible_naming_conventi.Vectors.Reindex.{reindex_project}
use terrible_naming_conventi.Vectors.Owned.{IsCuttable, reindex_project-IsOwned}
use terrible_naming_conventi.Vectors.Owners.{IsOf}
use terrible_naming_conventi.Samples.Collection.{Points, collection, indexer, collection-IsStore}
use terrible_naming_conventi.Tests.Accounts.{office, project_of_team}

abbrev notes : Document
notes = record {
  id = 31;
  project_id = 7;
  filename = codes "notes.txt";
  file_type = txt;
  raw_bytes = codes " one two three\n";
  created_at = 3;
}

abbrev minutes : Document
minutes = record notes { id = 32; project_id = 8 }

abbrev office_with_files : Db
office_with_files = record office { documents = notes ∷ minutes ∷ [] }

-- a point of a document that is no longer there
abbrev stale : PointStruct ℕ ℕ
stale = record {
  id = (30, 0);
  dense = 1;
  bm25 = some 1;
  payload = record {
    document_id = 30;
    project_id = 7;
    created_at = 1;
    chunk_index = 0;
    text = codes "old";
    filename = codes "old.txt";
  };
}

notes_read :
    text_and_strategy indexer notes (project_of_team 7 5) ≡ ok (codes "one two three", naive)
unfolding parse_file
notes_read = refl

notes-IsCuttable : IsCuttable indexer 3 (project_of_team 7 5) notes
unfolding chunk_text
notes-IsCuttable text naive h =
    subst
      (λ t.
        (cuts : Result (List Chunk)) × (cut indexer 3 (project_of_team 7 5) t naive ≡ some cuts))
      (ap (λ r. r.0) (ok-injective (sym notes_read ∙ h))) (ok _, refl)
notes-IsCuttable text contextual h = (err not_implemented, refl)
notes-IsCuttable text late h = (err not_implemented, refl)

abbrev point_texts : Option (Result (Unit {0}) × Points) → List (ℕ × Text × Text)
point_texts none = []
point_texts (some (r, w)) =
    map (λ (x : PointStruct ℕ ℕ). (x.id.0, x.payload.text, x.payload.filename)) w

reindex_project_run :
    point_texts (reindex_project collection indexer (λ k. k) 3 7 office_with_files (stale ∷ []))
    ≡ (31, codes "one two", codes "notes.txt")
      ∷ (31, codes "two three", codes "notes.txt")
      ∷ (31, codes "three", codes "notes.txt")
      ∷ []
unfolding reindex_project delete_collection ensure_collection upsert_results index_document
    parse_file chunk_text
reindex_project_run = refl

emptied : (delete_collection collection.client 7 (stale ∷ [])).0 ≡ ok tt
unfolding delete_collection
emptied = refl

reindex_project-IsOwned_example :
    (r : Result (Unit {0})) × (w : Points) × (reindex_project collection indexer
        (λ k. k)
        3
        7
        office_with_files
        (stale ∷ [])
      ≡ some (r, w))
    × All (IsOf 7 office_with_files) w
reindex_project-IsOwned_example =
    reindex_project-IsOwned collection indexer (λ w p. w) collection-IsStore (λ k. k) 3 7
      office_with_files (project_of_team 7 5) (stale ∷ []) refl (notes-IsCuttable, tt) emptied
