-- ===== src/Cag/Rows.antt =====
-- The parts of the queries of backend/app/services/cag.py that depend on one row: the WHERE tests,
-- the order keys, and the conversion of a row to a record.
use terrible_naming_conventi.Base.{
  ℕ, Option, none, some, Bool, true, false, not, List, [], ◌∷◌, max, ltb, ◌==◌, ◌&&◌,
}
use terrible_naming_conventi.Errors.{Result, ok, err, ◌>>=◌, invalid_belief_state}
use terrible_naming_conventi.Models.{
  Text, BeliefState, DocumentSummary, Postgres, RebuildType, incremental, full,
}
use terrible_naming_conventi.Schema.{
  BeliefStateContent, BeliefStateRecord, BeliefStateVersionMeta, Pydantic,
}

abbrev pub version_of : BeliefState → ℕ
version_of r = r.version

abbrev pub created_of : DocumentSummary → ℕ
created_of s = s.created_at

abbrev pub is_full : RebuildType → Bool
is_full full = true
is_full incremental = false

-- `func.coalesce(DocumentSummary.summary["raw_text_fallback"].as_boolean(), False).is_(False)`
abbrev pub coalesce_is_false : Option Bool → Bool
coalesce_is_false none = true
coalesce_is_false (some b) = not b

-- "raw_text_fallback"
abbrev pub raw_text_fallback : Text
raw_text_fallback =
    b'r' ∷ b'a' ∷ b'w' ∷ b'_' ∷ b't' ∷ b'e' ∷ b'x' ∷ b't' ∷ b'_' ∷ b'f' ∷ b'a' ∷ b'l' ∷ b'l' ∷ b'b'
    ∷ b'a' ∷ b'c' ∷ b'k' ∷ []

unfoldable pub not_fallback : Postgres → DocumentSummary → Bool
not_fallback pg s = coalesce_is_false (pg.as_boolean s.summary raw_text_fallback)

-- `DocumentSummary.created_at > watermark`, a test only if there is a watermark
abbrev pub is_after : Option ℕ → ℕ → Bool
is_after none t = true
is_after (some w) t = ltb w t

-- the WHERE clause of `get_window_since` and `count_pending`
abbrev pub in_window : Postgres → ℕ → Option ℕ → DocumentSummary → Bool
in_window pg project_id watermark s =
    (s.project_id == project_id && not_fallback pg s) && is_after watermark s.created_at

abbrev pub record_of : BeliefState → BeliefStateContent → BeliefStateRecord
record_of row content = record {
  id = row.id;
  project_id = row.project_id;
  version = row.version;
  rebuild_type = row.rebuild_type;
  last_summary_created_at = row.last_summary_created_at;
  summary_count_covered = row.summary_count_covered;
  created_at = row.created_at;
  state = content;
}

unfoldable pub to_record : Pydantic → BeliefState → Result BeliefStateRecord
to_record py row = elim (py.model_validate row.state) [
  | none ↦ err invalid_belief_state
  | some content ↦ ok (record_of row content)
]

abbrev pub to_meta : BeliefState → BeliefStateVersionMeta
to_meta row = record {
  version = row.version;
  rebuild_type = row.rebuild_type;
  created_at = row.created_at;
  summary_count_covered = row.summary_count_covered;
}

-- `.limit(1)` and `scalar_one_or_none()`, then `_to_record`
unfoldable pub first_record : Pydantic → List BeliefState → Result (Option BeliefStateRecord)
unfolding to_record
first_record py [] = ok none
first_record py (row ∷ rows) = do r ← to_record py row; ok (some r)

-- `max` of the versions, with `or 0` where there is no row
abbrev pub max_version : List BeliefState → ℕ
max_version [] = 0
max_version (r ∷ rs) = max r.version (max_version rs)

-- `max(summary.created_at for summary in window)`; the window is not empty
abbrev pub max_created_at : List DocumentSummary → ℕ
max_created_at [] = 0
max_created_at (s ∷ ss) = max s.created_at (max_created_at ss)
