-- ===== src/Teams/Members.antt =====
-- Memberships and the access they give (backend/app/services/team.py, backend/app/core/access.py).
use terrible_naming_conventi.Base.{
  ℕ, find-none, find-append, ◌≤◌, ◌≡◌, refl, sym, ap, ◌∙◌, subst, none, some, Bool-cases, inl, inr,
  Bool, true, ◌&&◌, ◌||◌, not, List, [], ◌∷◌, ◌++◌, filter, find, any, count, count-append,
  count-filter, count_mono, contains, arith, ◌==◌,
}
use terrible_naming_conventi.Errors.{
  raise_if-ok, ok, raise_if, or_raise, >>=-inverse, ok-injective, already_member, member_not_found,
}
use terrible_naming_conventi.Models.{Db, User, Team, TeamMember, Role, Project}
use terrible_naming_conventi.Teams.{
  is_some-none, with_members, is_membership, require_team, require_user, get_member, is_some,
  add_member, remove_member,
}
use terrible_naming_conventi.Access.{is_admin, role_of, get_accessible_project_ids}
use terrible_naming_conventi.Access.Scope.{belongs, reaches, get_accessible_project_ids_iff}

-- No user is in a team twice: the primary key of the table.
abbrev pub HasUniqueMembers : Db → Type 0
HasUniqueMembers db = (u t : ℕ) → count (is_membership u t) db.team_members ≤ 1

abbrev pub with_member : ℕ → ℕ → Db → Db
with_member team_id user_id db =
    with_members (db.team_members ++ record { user_id = user_id; team_id = team_id } ∷ []) db

-- What an addition that succeeds has found and leaves.
record IsAdded (team_id user_id : ℕ) (db db' : Db) : Type 0 where
  team : Team
  found : require_team team_id db ≡ ok team
  absent : get_member user_id team_id db ≡ none
  added : db' ≡ with_member team_id user_id db

add_member-IsAdded :
    (team_id user_id : ℕ) (db : Db) {db' : Db}
    → add_member team_id user_id db ≡ ok db'
    → IsAdded team_id user_id db db'
unfolding add_member
add_member-IsAdded team_id user_id db h =
    let (team, found, h1) = >>=-inverse (require_team team_id db) _ h in
    let (user, found', h2) = >>=-inverse (require_user user_id db) _ h1 in
    let (u, absent, h3) =
      >>=-inverse (raise_if (is_some (get_member user_id team_id db)) already_member) _ h2 in
    record {
      team = team;
      found = found;
      absent = is_some-none (get_member user_id team_id db) (raise_if-ok _ already_member absent);
      added = sym (ok-injective h3);
    }

-- Adding a member, where it succeeds, keeps the memberships unique.
pub add_member-HasUniqueMembers :
    (team_id user_id : ℕ) (db : Db) {db' : Db}
    → HasUniqueMembers db
    → add_member team_id user_id db ≡ ok db'
    → HasUniqueMembers db'
add_member-HasUniqueMembers team_id user_id db unique h =
    let added = add_member-IsAdded team_id user_id db h in
    subst HasUniqueMembers (sym added.added) (λ u t.
      let same = find-none (is_membership user_id team_id) db.team_members added.absent in
      let appended =
        count-append (is_membership u t) db.team_members
          (record { user_id = user_id; team_id = team_id } ∷ []) in
      elim (Bool-cases (user_id == u && team_id == t)) [
        | inl fits ↦
            let eu : user_id ≡ u = ground arith in
            let et : team_id ≡ t = ground arith in
            let none_yet : count (is_membership u t) db.team_members ≡ 0 =
              subst (λ x. count (is_membership x t) db.team_members ≡ 0) eu
                (subst (λ y. count (is_membership user_id y) db.team_members ≡ 0) et same) in
            ground (arith, appended, none_yet)
        | inr differs ↦ ground (arith, appended, unique u t)
      ])

find-filter-not :
    {A : Type 0} (p : A → Bool) (xs : List A) (y : A)
    → find p xs ≡ none
    → p y ≡ true
    → filter (λ x. not (p x)) (xs ++ y ∷ []) ≡ xs
find-filter-not p [] y h t = ground (arith, t)
find-filter-not p (x ∷ xs) y h t = ground (arith, find-filter-not p xs y, t)

removed :
    (team_id user_id : ℕ) (db : Db) {team : Team} {member : TeamMember}
    → require_team team_id db ≡ ok team
    → get_member user_id team_id (with_member team_id user_id db) ≡ some member
    → filter
        (λ m. not (is_membership user_id team_id m))
        (with_member team_id user_id db).team_members
      ≡ db.team_members
    → remove_member team_id user_id (with_member team_id user_id db) ≡ ok db
unfolding remove_member
removed team_id user_id db found present left = rw (found, present, left) refl

-- Removing the member that was just added gives the tables from before the addition.
pub remove_member-add_member :
    (team_id user_id : ℕ) (db : Db) {db' : Db}
    → add_member team_id user_id db ≡ ok db'
    → remove_member team_id user_id db' ≡ ok db
remove_member-add_member team_id user_id db h =
    let added = add_member-IsAdded team_id user_id db h in
    let row : TeamMember = record { user_id = user_id; team_id = team_id } in
    let is_row : is_membership user_id team_id row ≡ true = ground arith in
    subst (λ d. remove_member team_id user_id d ≡ ok db) (sym added.added)
      (removed team_id user_id db added.found
        (find-append (is_membership user_id team_id) db.team_members row added.absent is_row)
        (find-filter-not (is_membership user_id team_id) db.team_members row added.absent is_row))

filter-HasUniqueMembers :
    (q : TeamMember → Bool) (db : Db)
    → HasUniqueMembers db
    → HasUniqueMembers (with_members (filter q db.team_members) db)
filter-HasUniqueMembers q db unique u t = omega (
  arith,
  count-filter (is_membership u t) q db.team_members,
  unique u t,
  count_mono (λ x. q x && is_membership u t x) (is_membership u t) db.team_members
      (λ x h. ground arith),
)

-- Removing a member, where it succeeds, keeps the memberships unique.
pub remove_member-HasUniqueMembers :
    (team_id user_id : ℕ) (db : Db) {db' : Db}
    → HasUniqueMembers db
    → remove_member team_id user_id db ≡ ok db'
    → HasUniqueMembers db'
unfolding remove_member
remove_member-HasUniqueMembers team_id user_id db unique h =
    let (team, found, h1) = >>=-inverse (require_team team_id db) _ h in
    let (member, found', h2) =
      >>=-inverse (or_raise (get_member user_id team_id db) member_not_found) _ h1 in
    subst HasUniqueMembers (ok-injective h2)
      (filter-HasUniqueMembers (λ m. not (is_membership user_id team_id m)) db unique)

belongs-with_member :
    (user : User) (team team_id user_id : ℕ) (ms : List TeamMember)
    → any
        (λ m. m.user_id == user.id && m.team_id == team)
        (ms ++ record { user_id = user_id; team_id = team_id } ∷ [])
      ≡ (any (λ m. m.user_id == user.id && m.team_id == team) ms
          || (user_id == user.id && team_id == team))
belongs-with_member user team team_id user_id [] = ground arith
belongs-with_member user team team_id user_id (m ∷ ms) =
    ground (arith, belongs-with_member user team team_id user_id ms)

-- The projects that the new membership opens.
abbrev pub opens : ℕ → ℕ → User → ℕ → Db → Bool
opens team_id user_id user pid db =
    user_id == user.id && any (λ (p : Project). p.id == pid && team_id == p.team_id) db.projects

any-opens :
    (role : Role) (user : User) (pid team_id user_id : ℕ) (db : Db) (ps : List Project)
    → any
        (λ (p : Project).
          p.id == pid && (is_admin role || belongs user p.team_id (with_member team_id user_id db)))
        ps
      ≡ (any (λ (p : Project). p.id == pid && (is_admin role || belongs user p.team_id db)) ps
          || (user_id == user.id && any (λ (p : Project). p.id == pid && team_id == p.team_id) ps))
any-opens role user pid team_id user_id db [] = ground arith
any-opens role user pid team_id user_id db (p ∷ ps) = ground (
  arith,
  any-opens role user pid team_id user_id db ps,
  belongs-with_member user p.team_id team_id user_id db.team_members,
)

-- Adding a member, where it succeeds, gives a user with a known role access to exactly what the
-- user had access to before and, if it is the added user, to the projects of the team.
pub add_member-opens :
    (team_id user_id : ℕ) (db : Db) (user : User) (role : Role) (pid : ℕ) {db' : Db}
    → role_of user.role ≡ some role
    → add_member team_id user_id db ≡ ok db'
    → contains pid (get_accessible_project_ids user db')
      ≡ (contains pid (get_accessible_project_ids user db) || opens team_id user_id user pid db)
add_member-opens team_id user_id db user role pid {db'} known h =
    let added = add_member-IsAdded team_id user_id db h in
    subst
      (λ d.
        contains pid (get_accessible_project_ids user d)
        ≡ (contains pid (get_accessible_project_ids user db) || opens team_id user_id user pid db))
      (sym added.added)
      (get_accessible_project_ids_iff user pid (with_member team_id user_id db)
        ∙ ap (λ r. reaches r user pid (with_member team_id user_id db)) known
        ∙ any-opens role user pid team_id user_id db db.projects
        ∙ ap (λ b. b || opens team_id user_id user pid db)
            (ap (λ r. reaches r user pid db) (sym known)
              ∙ sym (get_accessible_project_ids_iff user pid db)))
