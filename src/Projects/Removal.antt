-- ===== src/Projects/Removal.antt =====
-- What a deletion and an update of a project leave (backend/app/services/project.py).
use terrible_naming_conventi.Base.{
  ℕ, find-change_where, ◌≡◌, refl, ap, sym, ◌∙◌, subst, Option, none, some, Bool, false, Bool-cases,
  inl, inr, ◌&&◌, ◌||◌, not, List, [], ◌∷◌, find, any, contains, ◌==◌,
}
use terrible_naming_conventi.Errors.{
  ok, err, raise_if, or_raise, >>=-inverse, ok-injective, or_raise-ok, access_denied,
  project_not_found,
}
use terrible_naming_conventi.Models.{Db, User, Role, Project, Postgres}
use terrible_naming_conventi.Schema.{Pydantic}
use terrible_naming_conventi.Cag.{get_latest}
use terrible_naming_conventi.Access.{get_accessible_project_ids, role_of, is_admin}
use terrible_naming_conventi.Access.Scope.{reaches, belongs, get_accessible_project_ids_iff}
use terrible_naming_conventi.Projects.{
  ProjectUpdate, is_project, get_by_id, changed, change_project, update,
}

-- Nothing of the project is left, and the other projects and their belief states are as they were.
abbrev pub IsRemoved : Postgres → Pydantic → ℕ → Db → Db → Type 0
IsRemoved pg py pid db db' =
    ((ids : List ℕ) → get_by_id pid ids db' ≡ err project_not_found)
    × ((q : ℕ) (ids : List ℕ) → (q == pid) ≡ false → get_by_id q ids db' ≡ get_by_id q ids db)
    × ((q : ℕ) → (q == pid) ≡ false → get_latest pg py q db' ≡ get_latest pg py q db)

any-change_project :
    (pid q : ℕ) (fields : ProjectUpdate) (test : ℕ → Bool) (ps : List Project)
    → any (λ (p : Project). p.id == q && test p.team_id) (change_project pid fields ps)
      ≡ any (λ (p : Project). p.id == q && test p.team_id) ps
any-change_project pid q fields test [] = refl
any-change_project pid q fields test (p ∷ ps) = elim (Bool-cases (is_project pid p)) [
  | inl t ↦ rw (t, any-change_project pid q fields test ps) refl
  | inr t ↦ rw (t, any-change_project pid q fields test ps) refl
]

abbrev with_change : ℕ → ProjectUpdate → Db → Db
with_change pid fields db = record db { projects = change_project pid fields db.projects }

reaches-with_change :
    (role : Option Role) (user : User) (pid q : ℕ) (fields : ProjectUpdate) (db : Db)
    → reaches role user q (with_change pid fields db) ≡ reaches role user q db
reaches-with_change none user pid q fields db = refl
reaches-with_change (some role) user pid q fields db =
    any-change_project pid q fields (λ team. is_admin role || belongs user team db) db.projects

-- The tables have the project as it is given, and each user reaches the projects of before.
abbrev pub IsUpdated : ℕ → List ℕ → Project → Db → Db → Type 0
IsUpdated pid ids p db db' =
    (get_by_id pid ids db' ≡ ok p)
    × ((user : User) (q : ℕ)
        → contains q (get_accessible_project_ids user db')
          ≡ contains q (get_accessible_project_ids user db))

get_by_id-with_change :
    (pid : ℕ) (ids : List ℕ) (fields : ProjectUpdate) (db : Db) {p : Project}
    → get_by_id pid ids db ≡ ok p
    → get_by_id pid ids (with_change pid fields db) ≡ ok (changed fields p)
unfolding get_by_id
get_by_id-with_change pid ids fields db {p} h =
    let (x, found, h1) =
      >>=-inverse (or_raise (find (is_project pid) db.projects) project_not_found) _ h in
    let (u, allowed, h2) = >>=-inverse (raise_if (not (contains pid ids)) access_denied) _ h1 in
    let same : x ≡ p = ok-injective h2 in
    let moved =
      find-change_where (is_project pid) (changed fields) db.projects (λ y. refl)
        (or_raise-ok (find (is_project pid) db.projects) project_not_found found) in
    rw (moved, allowed) (ap (λ z. ok (changed fields z)) same)

-- An update that succeeds returns the project with the given fields changed, which is found
-- afterwards, and changes for no user which projects are accessible.
pub update-IsUpdated :
    (pid : ℕ) (fields : ProjectUpdate) (ids : List ℕ) (db : Db) {p : Project} {db' : Db}
    → update pid fields ids db ≡ ok (p, db')
    → IsUpdated pid ids p db db'
unfolding update
update-IsUpdated pid fields ids db {p} {db'} h =
    let (x, found, h1) = >>=-inverse (get_by_id pid ids db) _ h in
    let same : (changed fields x, with_change pid fields db) ≡ (p, db') = ok-injective h1 in
    subst (λ (r : Project × Db). IsUpdated pid ids r.0 db r.1) same
      (
        get_by_id-with_change pid ids fields db found,
        (λ user q.
            get_accessible_project_ids_iff user q (with_change pid fields db)
            ∙ reaches-with_change (role_of user.role) user pid q fields db
            ∙ sym (get_accessible_project_ids_iff user q db)),
      )
