-- ===== src/Projects.antt =====
-- Projects: backend/app/services/project.py, and `VectorStore.delete_collection` of
-- backend/app/ingestion/vector_store.py. Deleting a row deletes the rows that refer to it by a
-- foreign key with ON DELETE CASCADE.
pub mod Removal
use terrible_naming_conventi.Base.{
  ℕ, change_where, Option, none, some, Bool, true, false, not, List, [], ◌∷◌, ◌++◌, filter, find,
  map, contains, ◌==◌, if◌then◌else◌,
}
use terrible_naming_conventi.Errors.{
  Result, ok, err, raise_if, or_raise, ◌>>=◌, ◌>>◌, access_denied, project_not_found, qdrant_error,
}
use terrible_naming_conventi.Act.{Act, continue, pure, lift}
use terrible_naming_conventi.Models.{
  Db, Project, Config, Document, DocumentSummary, IngestionJob, BeliefState, Fresh, Text,
}
use terrible_naming_conventi.Teams.{require_team}
use terrible_naming_conventi.Documents.{commit, outside}
use terrible_naming_conventi.Ingest.{reading}
use terrible_naming_conventi.Retrieve.{as_qdrant_error}

pub record ProjectCreate : Type 0 where
  pub name : Text
  pub description : Option Text
  pub team_id : ℕ
  pub config : Config

pub record ProjectUpdate : Type 0 where
  pub name : Option Text
  pub description : Option Text

unfoldable pub create : Fresh → ProjectCreate → Db → Result (Project × Db)
create fresh fields db = do
  team ← require_team fields.team_id db
  let project : Project = record {
    id = fresh.id;
    name = fields.name;
    description = fields.description;
    team_id = fields.team_id;
    config = fields.config;
    created_at = fresh.now;
  }
  ok (project, record db { projects = db.projects ++ project ∷ [] })

abbrev pub is_project : ℕ → Project → Bool
is_project project_id p = p.id == project_id

unfoldable pub get_by_id : ℕ → List ℕ → Db → Result Project
get_by_id project_id accessible_ids db = do
  project ← or_raise (find (is_project project_id) db.projects) project_not_found
  raise_if (not (contains project_id accessible_ids)) access_denied
  ok project

-- the assignments of `update`
abbrev pub name_or : Option Text → Text → Text
name_or none old = old
name_or (some new) old = new

abbrev pub description_or : Option Text → Option Text → Option Text
description_or none old = old
description_or (some new) old = some new

abbrev pub changed : ProjectUpdate → Project → Project
changed fields p = record p {
  name = name_or fields.name p.name;
  description = description_or fields.description p.description;
}

abbrev pub change_project : ℕ → ProjectUpdate → List Project → List Project
change_project project_id fields = change_where (is_project project_id) (changed fields)

unfoldable pub update : ℕ → ProjectUpdate → List ℕ → Db → Result (Project × Db)
unfolding get_by_id
update project_id fields accessible_ids db = do
  project ← get_by_id project_id accessible_ids db
  ok (changed fields project, record db { projects = change_project project_id fields db.projects })

-- the row and, by the cascade, the rows of the project in the other tables
abbrev pub without_project : ℕ → Db → Db
without_project project_id db = record db {
  projects = filter (λ p. not (is_project project_id p)) db.projects;
  documents = filter (λ (d : Document). not (d.project_id == project_id)) db.documents;
  document_summaries =
      filter (λ (s : DocumentSummary). not (s.project_id == project_id)) db.document_summaries;
  ingestion_jobs =
      filter (λ (j : IngestionJob). not (j.project_id == project_id)) db.ingestion_jobs;
  belief_states = filter (λ (b : BeliefState). not (b.project_id == project_id)) db.belief_states;
}

-- `except QdrantError`
abbrev pub ignore_qdrant_error : {S : Type 0} → Result (Unit {0}) × S → Result (Unit {0}) × S
ignore_qdrant_error (err qdrant_error, s) = (ok tt, s)
ignore_qdrant_error r = r

-- the Qdrant client
pub record Client (W : Type 0) : Type 0 where
  pub collection_exists : ℕ → Act W Bool
  pub delete_collection : ℕ → Act W (Unit {0})

module _ {W : Type 0} (client : Client W) where
  abbrev pub delete_existing : ℕ → Bool → Act W (Unit {0})
  delete_existing project_id true = client.delete_collection project_id
  delete_existing project_id false = pure tt

  -- `VectorStore.delete_collection`
  unfoldable pub delete_collection : ℕ → Act W (Unit {0})
  delete_collection project_id w =
      as_qdrant_error
        (continue (client.collection_exists project_id w) (delete_existing project_id))

  abbrev pub cleanup : ℕ → Act (Db × W) (Unit {0})
  cleanup project_id s = ignore_qdrant_error (outside (delete_collection project_id) s)

  unfoldable pub delete : ℕ → List ℕ → Act (Db × W) (Unit {0})
  unfolding get_by_id delete_collection
  delete project_id accessible_ids s =
      continue (reading (get_by_id project_id accessible_ids) s)
        (λ project t. continue (commit (without_project project_id) t) (λ _. cleanup project_id))
