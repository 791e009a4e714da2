-- ===== src/Access/Scope.antt =====
-- Who reaches which project (backend/app/core/access.py), against a description by membership.
use terrible_naming_conventi.Base.{
  ℕ, ◌≡◌, refl, ◌∙◌, ap, Option, none, some, Bool, true, false, ◌&&◌, ◌||◌, List, [], ◌∷◌, map,
  filter, contains, any, arith, ◌==◌, if◌then◌else◌,
}
use terrible_naming_conventi.Errors.{Result, ok, err, or_raise, ◌>>=◌, http_exception}
use terrible_naming_conventi.Models.{
  Db, User, Project, TeamMember, Role, member, admin, super_admin,
}
use terrible_naming_conventi.Access.{
  role_of, has_permission, is_admin, team_ids_of, projects_of_teams, project_ids_for,
  get_accessible_project_ids, require_role,
}

-- The user is in a team.
abbrev pub belongs : User → ℕ → Db → Bool
belongs user team db = any (λ m. m.user_id == user.id && m.team_id == team) db.team_members

-- A project with the id exists that the role reaches.
abbrev pub reaches : Option Role → User → ℕ → Db → Bool
reaches none user pid db = false
reaches (some role) user pid db =
    any (λ (p : Project). p.id == pid && (is_admin role || belongs user p.team_id db)) db.projects

contains-teams :
    (user : User) (team : ℕ) (members : List TeamMember)
    → contains team
        (map (λ (m : TeamMember). m.team_id) (filter (λ m. m.user_id == user.id) members))
      ≡ any (λ m. m.user_id == user.id && m.team_id == team) members
contains-teams user team [] = refl
contains-teams user team (m ∷ ms) = ground (arith, contains-teams user team ms)

contains-projects :
    (q : ℕ → Bool) (pid : ℕ) (ps : List Project)
    → contains pid (map (λ (p : Project). p.id) (filter (λ p. q p.team_id) ps))
      ≡ any (λ (p : Project). p.id == pid && q p.team_id) ps
contains-projects q pid [] = refl
contains-projects q pid (p ∷ ps) = ground (arith, contains-projects q pid ps)

contains-all :
    (pid : ℕ) (ps : List Project)
    → contains pid (map (λ (p : Project). p.id) ps) ≡ any (λ (p : Project). p.id == pid && true) ps
contains-all pid [] = refl
contains-all pid (p ∷ ps) = ground (arith, contains-all pid ps)

any_none : (pid : ℕ) (ps : List Project) → false ≡ any (λ (p : Project). p.id == pid && false) ps
any_none pid [] = refl
any_none pid (p ∷ ps) = ground (arith, any_none pid ps)

-- With no team the early return is the empty list, which the filter gives as well.
contains-projects_of_teams :
    (teams : List ℕ) (pid : ℕ) (db : Db)
    → contains pid (projects_of_teams teams db)
      ≡ any (λ (p : Project). p.id == pid && contains p.team_id teams) db.projects
contains-projects_of_teams [] pid db = any_none pid db.projects
contains-projects_of_teams (t ∷ ts) pid db =
    contains-projects (λ team. contains team (t ∷ ts)) pid db.projects

any_congr :
    {p q : Project → Bool} → ((x : Project) → p x ≡ q x) → (xs : List Project) → any p xs ≡ any q xs
any_congr h [] = refl
any_congr h (x ∷ xs) = ground (arith, h x, any_congr h xs)

contains-project_ids_for :
    (role : Option Role) (user : User) (pid : ℕ) (db : Db)
    → contains pid (project_ids_for role user db) ≡ reaches role user pid db
unfolding project_ids_for team_ids_of
contains-project_ids_for none user pid db = refl
contains-project_ids_for (some admin) user pid db = contains-all pid db.projects
contains-project_ids_for (some super_admin) user pid db = contains-all pid db.projects
contains-project_ids_for (some member) user pid db =
    contains-projects_of_teams (team_ids_of user db) pid db
    ∙ any_congr (λ p. ap (λ b. p.id == pid && b) (contains-teams user p.team_id db.team_members))
        db.projects

-- The ids that `get_accessible_project_ids` returns are exactly the ids of the projects that the
-- user reaches: no project for an unknown role, every project for an admin or a super admin, and
-- for a member the projects of the teams with a membership row for the user.
pub get_accessible_project_ids_iff :
    (user : User) (pid : ℕ) (db : Db)
    → contains pid (get_accessible_project_ids user db) ≡ reaches (role_of user.role) user pid db
unfolding get_accessible_project_ids
get_accessible_project_ids_iff user pid db =
    contains-project_ids_for (role_of user.role) user pid db

-- The roles whose permissions a role has.
abbrev pub roles_up_to : Role → List Role
roles_up_to member = member ∷ []
roles_up_to admin = member ∷ admin ∷ []
roles_up_to super_admin = member ∷ admin ∷ super_admin ∷ []

abbrev pub same_role : Role → Role → Bool
same_role member member = true
same_role admin admin = true
same_role super_admin super_admin = true
same_role _ _ = false

has_permission_lem :
    (role required : Role)
    → has_permission role required ≡ any (λ r. same_role r required) (roles_up_to role)
unfolding has_permission
has_permission_lem member member = refl
has_permission_lem member admin = refl
has_permission_lem member super_admin = refl
has_permission_lem admin member = refl
has_permission_lem admin admin = refl
has_permission_lem admin super_admin = refl
has_permission_lem super_admin member = refl
has_permission_lem super_admin admin = refl
has_permission_lem super_admin super_admin = refl

-- The answer for a user with the role, by the roles whose permissions it has.
abbrev pub guarded : Option Role → Role → User → Result User
guarded none required user = err (http_exception 403)
guarded (some role) required user =
    if any (λ r. same_role r required) (roles_up_to role) then ok user else err (http_exception 403)

guarded_lem :
    (role : Option Role) (required : Role) (user : User)
    → (or_raise role (http_exception 403) >>= λ user_role.
        if has_permission user_role required then ok user else err (http_exception 403))
      ≡ guarded role required user
guarded_lem none required user = refl
guarded_lem (some role) required user = rw (has_permission_lem role required) refl

-- `require_role` lets the user through, unchanged, exactly when the role is known and has the
-- permissions of the required one (a member has its own, an admin also a member's, a super admin
-- all); it refuses every other user with status 403.
pub require_role_lem :
    (required : Role) (user : User)
    → require_role required user ≡ guarded (role_of user.role) required user
unfolding require_role
require_role_lem required user = guarded_lem (role_of user.role) required user
