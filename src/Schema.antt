-- ===== src/Schema.antt =====
-- backend/app/schemas/belief_state.py: the synthesised project memory. Pydantic turns a decoded
-- JSON value into a content or refuses it; that is the parameter `Pydantic`.
use terrible_naming_conventi.Base.{ℕ, ◌≡◌, Option, some, List}
use terrible_naming_conventi.Models.{Text, Json, RebuildType}

pub record Decision : Type 0 where
  pub description : Text
  pub approximate_date : Option Text
  pub summary_id_ref : Option ℕ

pub record OpenItem : Type 0 where
  pub description : Text
  pub first_seen_summary_id : Option ℕ

pub record KeyPerson : Type 0 where
  pub name : Text
  pub role : Option Text

pub record BeliefStateContent : Type 0 where
  pub project_summary : Text
  pub decisions : List Decision
  pub open_items : List OpenItem
  pub key_people : List KeyPerson
  pub recurring_themes : List Text

pub record BeliefStateRecord : Type 0 where
  pub id : ℕ
  pub project_id : ℕ
  pub version : ℕ
  pub rebuild_type : RebuildType
  pub last_summary_created_at : ℕ
  pub summary_count_covered : ℕ
  pub created_at : ℕ
  pub state : BeliefStateContent

pub record BeliefStateVersionMeta : Type 0 where
  pub version : ℕ
  pub rebuild_type : RebuildType
  pub created_at : ℕ
  pub summary_count_covered : ℕ

-- `model_dump(mode="json")` and `model_validate`: a dumped content is read back as it was.
pub record Pydantic : Type 0 where
  pub model_dump : BeliefStateContent → Json
  pub model_validate : Json → Option BeliefStateContent
  pub validate-dump : (c : BeliefStateContent) → model_validate (model_dump c) ≡ some c
