-- ===== src/Cag/Latest.antt =====
-- `get_latest` of backend/app/services/cag.py after a row is added.
use terrible_naming_conventi.Base.{
  ℕ, ◌≤◌, ◌<◌, ◌≡◌, ◌≢◌, refl, ◌⊎◌, inl, inr, some, List, [], ◌∷◌, arith, ◌==◌, count, head?, All,
  count-append, count-perm, All-append, All-permᴰ, All-map, ap,
}
use mathlib.Core.Logic.{∥∥₁_elim}
use mathlib.Core.List.{Perm}
use mathlib.Core.List.Perm
use terrible_naming_conventi.Errors.{ok, ◌>>=◌}
use terrible_naming_conventi.Models.{BeliefState, Db, IsDescending, Postgres}
use terrible_naming_conventi.Schema.{Pydantic}
use terrible_naming_conventi.Cag.{
  version_of, max_version, next_version, add_row, get_latest, first_record, to_record,
}
use terrible_naming_conventi.Cag.Versions.{
  rows_of, rows_of-add_row, rows_of-add_row_ne, All-le-max_version, le-head_of_desc,
  OptionBeliefState-set,
}

module _ (row : BeliefState) (n : ℕ) (newest : n < row.version) where
  abbrev IsNewest : BeliefState → Type 0
  IsNewest r = (r ≡ row) ⊎ (r.version ≤ n)

  head-desc :
      (xs : List BeliefState)
      → IsDescending version_of xs
      → All IsNewest xs
      → 0 < count (λ r. r.version == row.version) xs
      → head? xs ≡ some row
  head-desc [] d a c = elim c [ ]
  head-desc (r ∷ xs) d a c = elim (a.0) [
    | inl same ↦ ap some same
    | inr old ↦ absurd (omega (arith, le-head_of_desc row.version r xs d c))
  ]

  head-perm :
      (xs ys : List BeliefState)
      → Perm xs ys
      → IsDescending version_of xs
      → All IsNewest ys
      → 0 < count (λ r. r.version == row.version) ys
      → head? xs ≡ some row
  head-perm xs ys p d a c = ∥∥₁_elim (Perm.symm p) (OptionBeliefState-set _ _) λ q.
      head-desc xs d (All-permᴰ IsNewest q a)
        (omega (arith, count-perm (λ r. r.version == row.version) p))

first_record-head :
    (py : Pydantic) (xs : List BeliefState) (row : BeliefState)
    → head? xs ≡ some row
    → first_record py xs ≡ (do r ← to_record py row; ok (some r))
unfolding first_record
first_record-head py [] row h = cc
first_record-head py (x ∷ xs) row h = ground arith

-- Once a row with the next version of its project is added, it is the latest of the project.
pub get_latest-add_row :
    (pg : Postgres) (py : Pydantic) (db : Db) (row : BeliefState)
    → row.version ≡ next_version row.project_id db
    → get_latest pg py row.project_id (add_row db row) ≡ (do r ← to_record py row; ok (some r))
unfolding get_latest next_version
get_latest-add_row pg py db row h =
    let old = rows_of row.project_id db in
    let new = rows_of row.project_id (add_row db row) in
    let added = rows_of-add_row db row in
    first_record-head py (pg.order_by_desc BeliefState version_of new) row (
      head-perm row (max_version old) (omega arith) (pg.order_by_desc BeliefState version_of new)
        new (pg.desc_perm BeliefState version_of new) (pg.desc_sorted BeliefState version_of new)
        (rw added (
          All-append (IsNewest row (max_version old) (omega arith)) old (row ∷ [])
            (All-map (λ r. r.version ≤ max_version old)
              (IsNewest row (max_version old) (omega arith)) old (λ r k. inr k)
              (All-le-max_version old (max_version old) (omega arith)))
            (inl refl, tt)))
        (rw added (ground (arith, count-append (λ r. r.version == row.version) old (row ∷ [])))))

-- A row of one project leaves the latest record of every other project as it was.
pub get_latest-add_row_ne :
    (pg : Postgres) (py : Pydantic) (db : Db) (row : BeliefState) (pid : ℕ)
    → row.project_id ≢ pid
    → get_latest pg py pid (add_row db row) ≡ get_latest pg py pid db
unfolding get_latest
get_latest-add_row_ne pg py db row pid h = rw (rows_of-add_row_ne db row pid h)
