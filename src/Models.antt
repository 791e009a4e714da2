-- ===== src/Models.antt =====
-- The rows of backend/app/models/*.py, with the columns that the code reads, and the database
-- session as the tables that a committed transaction leaves. UUIDs and timestamps are only compared,
-- so both are natural numbers; text is a list of code points. What SQL leaves to PostgreSQL (the
-- order of equal rows, the cast of a JSON value) is the parameter `Postgres`.
use terrible_naming_conventi.Base.{ℕ, ◌≤◌, Option, Bool, List, [], ◌∷◌, All}
use mathlib.Core.List.{Perm}
use terrible_naming_conventi.Errors.{Error}

abbrev pub Text : Type 0
Text = List ℕ

-- A decoded JSON value. A number is kept as its literal.
mutual
  pub data Json : Type 0 where
    null : Json
    bool : Bool → Json
    num : Text → Json
    str : Text → Json
    arr : Items → Json
    obj : Fields → Json

  pub data Items : Type 0 where
    nil : Items
    cons : Json → Items → Items

  pub data Fields : Type 0 where
    end : Fields
    field : Text → Json → Fields → Fields

pub data Role : Type 0 where
  member admin super_admin : Role

pub record User : Type 0 where
  pub id : ℕ
  pub email : Text
  pub hashed_password : Text
  pub role : Text
  pub is_active : Bool
  pub created_at : ℕ

pub record Team : Type 0 where
  pub id : ℕ
  pub name : Text
  pub created_at : ℕ

pub record TeamMember : Type 0 where
  pub user_id : ℕ
  pub team_id : ℕ

-- `config` keeps the keys that the code reads.
pub record Config : Type 0 where
  pub context_model : Option Text
  pub query_model : Option Text
  pub chunk_size : Option ℕ
  pub chunk_overlap : Option ℕ
  pub chunking_strategy : Option Text
  pub cag_rebuild_threshold : Option ℕ

pub record Project : Type 0 where
  pub id : ℕ
  pub name : Text
  pub description : Option Text
  pub team_id : ℕ
  pub config : Config
  pub created_at : ℕ

pub data FileType : Type 0 where
  markdown txt pdf : FileType

pub record Document : Type 0 where
  pub id : ℕ
  pub project_id : ℕ
  pub filename : Text
  pub file_type : FileType
  pub raw_bytes : List ℕ
  pub created_at : ℕ

pub record DocumentSummary : Type 0 where
  pub id : ℕ
  pub document_id : ℕ
  pub project_id : ℕ
  pub summary : Json
  pub created_at : ℕ

pub data JobStatus : Type 0 where
  pending running complete failed : JobStatus

pub record IngestionJob : Type 0 where
  pub id : ℕ
  pub project_id : ℕ
  pub document_id : ℕ
  pub status : JobStatus
  -- the exception whose text is stored
  pub error_message : Option Error
  pub created_at : ℕ
  pub completed_at : Option ℕ

pub data RebuildType : Type 0 where
  incremental full : RebuildType

pub record BeliefState : Type 0 where
  pub id : ℕ
  pub project_id : ℕ
  pub version : ℕ
  pub state : Json
  pub rebuild_type : RebuildType
  pub last_summary_created_at : ℕ
  pub summary_count_covered : ℕ
  pub created_at : ℕ

pub record Db : Type 0 where
  pub users : List User
  pub teams : List Team
  pub team_members : List TeamMember
  pub projects : List Project
  pub documents : List Document
  pub document_summaries : List DocumentSummary
  pub ingestion_jobs : List IngestionJob
  pub belief_states : List BeliefState

-- Each key is at most the keys after it.
abbrev pub IsAscending : {A : Type 0} → (A → ℕ) → List A → Type 0
IsAscending key [] = Unit
IsAscending key (x ∷ xs) = All (λ y. key x ≤ key y) xs × IsAscending key xs

abbrev pub IsDescending : {A : Type 0} → (A → ℕ) → List A → Type 0
IsDescending key [] = Unit
IsDescending key (x ∷ xs) = All (λ y. key y ≤ key x) xs × IsDescending key xs

-- What the queries rely on: ORDER BY returns the selected rows, arranged by the key, and
-- `summary ->> 'raw_text_fallback'` cast to a boolean is true, false or NULL; a JSONB column does not
-- accept every value, such as a text with a zero character.
pub record Postgres : Type 1 where
  pub order_by_asc : (A : Type 0) → (A → ℕ) → List A → List A
  pub order_by_desc : (A : Type 0) → (A → ℕ) → List A → List A
  pub as_boolean : Json → Text → Option Bool
  pub accepts_jsonb : Json → Bool
  pub asc_perm : (A : Type 0) (key : A → ℕ) (rows : List A) → Perm (order_by_asc A key rows) rows
  pub asc_sorted :
      (A : Type 0) (key : A → ℕ) (rows : List A) → IsAscending key (order_by_asc A key rows)
  pub desc_perm : (A : Type 0) (key : A → ℕ) (rows : List A) → Perm (order_by_desc A key rows) rows
  pub desc_sorted :
      (A : Type 0) (key : A → ℕ) (rows : List A) → IsDescending key (order_by_desc A key rows)

-- The columns that the database fills in for a new row: its id and the time of the transaction.
pub record Fresh : Type 0 where
  pub id : ℕ
  pub now : ℕ
