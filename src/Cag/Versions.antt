-- ===== src/Cag/Versions.antt =====
-- The version numbers of backend/app/services/cag.py: `next_version`, the row with the greatest
-- version, and what adding a row does to both.
use terrible_naming_conventi.Base.{
  ℕ, ◌+◌, ◌≤◌, ◌<◌, ◌≡◌, ◌≢◌, Option, List, [], ◌∷◌, ◌++◌, ◌&&◌, arith, leb, ◌==◌, if◌then◌else◌,
  length, count, filter, filter-append, append-nil, All, count-filter, length-filter, count-append,
}
use terrible_naming_conventi.Models.{BeliefState, Db, IsDescending}
use terrible_naming_conventi.Cag.{version_of, max_version, next_version, add_row}

-- how many rows of a project have a version
abbrev pub versions_at : ℕ → ℕ → Db → ℕ
versions_at pid v db = count (λ r. r.project_id == pid && r.version == v) db.belief_states

abbrev pub rows_of : ℕ → Db → List BeliefState
rows_of pid db = filter (λ r. r.project_id == pid) db.belief_states

abbrev pub size_of : ℕ → Db → ℕ
size_of pid db = count (λ r. r.project_id == pid) db.belief_states

-- The versions of each project are 1, 2, ..., n, each once.
abbrev pub IsNumbered : Db → Type 0
IsNumbered db =
    (pid v : ℕ) → versions_at pid v db ≡ (if leb 1 v && leb v (size_of pid db) then 1 else 0)

max_version-attained :
    (rows : List BeliefState)
    → 0 < length rows
    → 0 < count (λ r. r.version == max_version rows) rows
max_version-attained [] h = elim h [ ]
max_version-attained (r ∷ []) h = ground arith
max_version-attained (r ∷ s ∷ rows) h = grind (arith, max_version-attained (s ∷ rows))

max_version-empty : (rows : List BeliefState) → length rows ≡ 0 → max_version rows ≡ 0
max_version-empty [] h = omega arith
max_version-empty (r ∷ rows) h = absurd (omega arith)

le-max_version :
    (v : ℕ) (rows : List BeliefState) → 0 < count (λ r. r.version == v) rows → v ≤ max_version rows
le-max_version v [] h = elim h [ ]
le-max_version v (r ∷ rows) h = grind (arith, le-max_version v rows)

pub All-le-max_version :
    (rows : List BeliefState) (n : ℕ) → max_version rows ≤ n → All (λ r. r.version ≤ n) rows
All-le-max_version [] n h = tt
All-le-max_version (r ∷ rows) n h = (omega arith, All-le-max_version rows n (omega arith))

module _ (pid : ℕ) (db : Db) where
  count-rows_of : (v : ℕ) → count (λ r. r.version == v) (rows_of pid db) ≡ versions_at pid v db
  count-rows_of v = count-filter (λ r. r.version == v) (λ r. r.project_id == pid) db.belief_states

  length-rows_of : length (rows_of pid db) ≡ size_of pid db
  length-rows_of = length-filter (λ r. r.project_id == pid) db.belief_states

  -- In a numbered table the next version is one more than the number of rows.
  pub next_version-eq : IsNumbered db → next_version pid db ≡ size_of pid db + 1
  unfolding next_version
  next_version-eq h =
      let m = max_version (rows_of pid db) in
      let n = size_of pid db in
      ground (
        arith,
        h pid m,
        h pid n,
        count-rows_of m,
        count-rows_of n,
        length-rows_of,
        max_version-empty (rows_of pid db),
        max_version-attained (rows_of pid db),
        le-max_version n (rows_of pid db),
      )

-- Adding a row with the next version keeps the table numbered.
pub add_row-IsNumbered :
    (db : Db) (row : BeliefState)
    → IsNumbered db
    → row.version ≡ next_version row.project_id db
    → IsNumbered (add_row db row)
add_row-IsNumbered db row h e pid v = ground (
  arith,
  h pid v,
  next_version-eq row.project_id db h,
  count-append (λ r. r.project_id == pid && r.version == v) db.belief_states (row ∷ []),
  count-append (λ r. r.project_id == pid) db.belief_states (row ∷ []),
)

-- The last row of a descending list comes first: every row's key is at most the head's.
pub le-head_of_desc :
    (v : ℕ) (r : BeliefState) (rows : List BeliefState)
    → IsDescending version_of (r ∷ rows)
    → 0 < count (λ x. x.version == v) (r ∷ rows)
    → v ≤ r.version
le-head_of_desc v r [] h c = ground arith
le-head_of_desc v r (x ∷ rows) h c = ground (arith, h.0.0, le-head_of_desc v x rows h.1)

pub rows_of-add_row :
    (db : Db) (row : BeliefState)
    → rows_of row.project_id (add_row db row) ≡ rows_of row.project_id db ++ row ∷ []
rows_of-add_row db row =
    ground (arith, filter-append (λ r. r.project_id == row.project_id) db.belief_states (row ∷ []))

pub rows_of-add_row_ne :
    (db : Db) (row : BeliefState) (pid : ℕ)
    → row.project_id ≢ pid
    → rows_of pid (add_row db row) ≡ rows_of pid db
rows_of-add_row_ne db row pid h = ground (
  arith,
  filter-append (λ r. r.project_id == pid) db.belief_states (row ∷ []),
  append-nil (rows_of pid db),
)

pub OptionBeliefState-set : IsSet (Option BeliefState)
OptionBeliefState-set = hlevel
