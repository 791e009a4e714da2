-- ===== src/Cag/Insert.antt =====
-- `insert_version` of backend/app/services/cag.py.
use terrible_naming_conventi.Base.{
  ℕ, ◌+◌, ◌≡◌, refl, ◌∙◌, ap, some, false, List, [], ◌∷◌, Bool, ◌&&◌, arith, ◌==◌, count, any,
}
use terrible_naming_conventi.Errors.{Result, ok}
use terrible_naming_conventi.Models.{Db, BeliefState, Postgres, Fresh, RebuildType}
use terrible_naming_conventi.Schema.{BeliefStateContent, BeliefStateRecord, Pydantic}
use terrible_naming_conventi.Cag.{
  add_row, record_of, inserted_row, get_latest, insert_version, next_version,
}
use terrible_naming_conventi.Cag.Versions.{
  IsNumbered, add_row-IsNumbered, next_version-eq, versions_at, size_of,
}
use terrible_naming_conventi.Cag.Latest.{get_latest-add_row}
use terrible_naming_conventi.Cag.Synthesize.{to_record-ok}

any-count :
    (p : BeliefState → Bool) (rows : List BeliefState) → count p rows ≡ 0 → any p rows ≡ false
any-count p [] h = refl
any-count p (r ∷ rows) h = ground (arith, any-count p rows)

-- In a numbered table the next version is not taken.
pub next_version-fresh :
    (pid : ℕ) (db : Db) → IsNumbered db → versions_at pid (next_version pid db) db ≡ 0
next_version-fresh pid db n = ground (arith, n pid (next_version pid db), next_version-eq pid db n)

insert_version-eq :
    (pg : Postgres) (py : Pydantic) (pid : ℕ) (c : BeliefStateContent) (kind : RebuildType)
    (last covered : ℕ) (fresh : Fresh) (db : Db)
    → IsNumbered db
    → insert_version pg py pid c kind last covered fresh db ≡ (
      ok (record_of (inserted_row py pid c kind last covered fresh db) c),
      add_row db (inserted_row py pid c kind last covered fresh db),
    )
unfolding insert_version
insert_version-eq pg py pid c kind last covered fresh db n = rw (
  any-count (λ r. r.project_id == pid && r.version == next_version pid db) db.belief_states
      (next_version-fresh pid db n),
  to_record-ok py (inserted_row py pid c kind last covered fresh db) c (py.validate-dump c),
)

-- In a numbered table an insert never meets a version conflict: it returns a record with the next
-- version and the given content, which is then the latest of the project, and the table stays
-- numbered.
insert_version_succeeds :
    (pg : Postgres) (py : Pydantic) (pid : ℕ) (c : BeliefStateContent) (kind : RebuildType)
    (last covered : ℕ) (fresh : Fresh) (db : Db)
    → IsNumbered db
    → let (result, db') = insert_version pg py pid c kind last covered fresh db in
      (r : BeliefStateRecord) × (result ≡ ok r)
      × (r.version ≡ size_of pid db + 1)
      × (r.state ≡ c)
      × (get_latest pg py pid db' ≡ ok (some r))
      × IsNumbered db'
insert_version_succeeds pg py pid c kind last covered fresh db n =
    let row = inserted_row py pid c kind last covered fresh db in
    let e = insert_version-eq pg py pid c kind last covered fresh db n in
    let read = to_record-ok py row c (py.validate-dump c) in
    (
      record_of row c,
      ap (λ (x : Result BeliefStateRecord × Db). x.0) e,
      next_version-eq pid db n,
      refl,
      ap (λ (x : Result BeliefStateRecord × Db). get_latest pg py pid x.1) e
          ∙ get_latest-add_row pg py db row refl
          ∙ rw read,
      rw e (add_row-IsNumbered db row n refl),
    )
