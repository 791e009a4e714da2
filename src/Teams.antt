-- ===== src/Teams.antt =====
-- Teams and their members: backend/app/services/team.py. The primary key of a membership is the
-- user with the team. A commit gives the tables afterwards.
pub mod Members
use terrible_naming_conventi.Base.{
  ℕ, ◌≡◌, refl, Option, none, some, Bool, true, false, ◌&&◌, not, List, [], ◌∷◌, ◌++◌, filter, find,
  ◌==◌,
}
use terrible_naming_conventi.Errors.{
  Result, ok, err, raise_if, or_raise, ◌>>=◌, ◌>>◌, already_member, member_not_found,
  team_not_found, user_not_found,
}
use terrible_naming_conventi.Models.{Db, User, Team, TeamMember, Fresh, Text}

abbrev pub with_members : List TeamMember → Db → Db
with_members members db = record db { team_members = members }

abbrev pub is_membership : ℕ → ℕ → TeamMember → Bool
is_membership user_id team_id m = m.user_id == user_id && m.team_id == team_id

-- `_require_team` and `_require_user`
abbrev pub require_team : ℕ → Db → Result Team
require_team team_id db = or_raise (find (λ (t : Team). t.id == team_id) db.teams) team_not_found

abbrev pub require_user : ℕ → Db → Result User
require_user user_id db = or_raise (find (λ (u : User). u.id == user_id) db.users) user_not_found

abbrev pub get_member : ℕ → ℕ → Db → Option TeamMember
get_member user_id team_id db = find (is_membership user_id team_id) db.team_members

abbrev pub is_some : {A : Type 0} → Option A → Bool
is_some none = false
is_some (some a) = true

unfoldable pub create : Fresh → Text → Db → Team × Db
create fresh name db =
    let team : Team = record { id = fresh.id; name = name; created_at = fresh.now } in
    (team, record db { teams = db.teams ++ team ∷ [] })

unfoldable pub add_member : ℕ → ℕ → Db → Result Db
add_member team_id user_id db = do
  team ← require_team team_id db
  user ← require_user user_id db
  raise_if (is_some (get_member user_id team_id db)) already_member
  ok (with_members (db.team_members ++ record { user_id = user_id; team_id = team_id } ∷ []) db)

unfoldable pub remove_member : ℕ → ℕ → Db → Result Db
remove_member team_id user_id db = do
  team ← require_team team_id db
  member ← or_raise (get_member user_id team_id db) member_not_found
  ok (with_members (filter (λ m. not (is_membership user_id team_id m)) db.team_members) db)

pub is_some-none : {A : Type 0} (o : Option A) → is_some o ≡ false → o ≡ none
is_some-none none h = refl
is_some-none (some a) h = cc
