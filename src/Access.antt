-- ===== src/Access.antt =====
-- Roles and access: backend/app/core/roles.py, backend/app/core/access.py, and the guards of
-- backend/app/core/dependencies.py that depend on the user's role.
pub mod Scope
use terrible_naming_conventi.Base.{
  ℕ, Option, none, some, Bool, true, false, List, [], ◌∷◌, map, filter, contains, leb, ◌==◌,
  if◌then◌else◌, codes, same_text,
}
use terrible_naming_conventi.Errors.{Result, ok, err, or_raise, ◌>>=◌, http_exception}
use terrible_naming_conventi.Models.{
  Db, User, Project, TeamMember, Role, member, admin, super_admin, Text,
}

-- `Role(value)`, which raises ValueError on any other text
unfoldable pub role_of : Text → Option Role
role_of s =
    if same_text s (codes "member")
    then some member
    else if same_text s (codes "admin")
    then some admin
    else if same_text s (codes "super_admin")
    then some super_admin
    else none

-- `ROLE_HIERARCHY`
abbrev pub role_rank : Role → ℕ
role_rank member = 0
role_rank admin = 1
role_rank super_admin = 2

unfoldable pub has_permission : Role → Role → Bool
has_permission user_role required_role = leb (role_rank required_role) (role_rank user_role)

-- `role in {Role.ADMIN, Role.SUPER_ADMIN}`
abbrev pub is_admin : Role → Bool
is_admin member = false
is_admin admin = true
is_admin super_admin = true

-- the teams of a user
unfoldable pub team_ids_of : User → Db → List ℕ
team_ids_of user db =
    map (λ (m : TeamMember). m.team_id) (filter (λ m. m.user_id == user.id) db.team_members)

-- the projects of the teams, with the early return for a user with no team
abbrev pub projects_of_teams : List ℕ → Db → List ℕ
projects_of_teams [] db = []
projects_of_teams (t ∷ ts) db =
    map (λ (p : Project). p.id) (filter (λ p. contains p.team_id (t ∷ ts)) db.projects)

-- the query after `Role(user.role)`, where an unknown role is none
unfoldable pub project_ids_for : Option Role → User → Db → List ℕ
unfolding team_ids_of
project_ids_for none user db = []
project_ids_for (some role) user db =
    if is_admin role
    then map (λ (p : Project). p.id) db.projects
    else projects_of_teams (team_ids_of user db) db

unfoldable pub get_accessible_project_ids : User → Db → List ℕ
unfolding project_ids_for
get_accessible_project_ids user db = project_ids_for (role_of user.role) user db

-- `require_role(required)`, for the user that `get_current_user` returned
unfoldable pub require_role : Role → User → Result User
unfolding has_permission
require_role required current_user = do
  user_role ← or_raise (role_of current_user.role) (http_exception 403)
  if has_permission user_role required then ok current_user else err (http_exception 403)
