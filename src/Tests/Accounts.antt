-- ===== src/Tests/Accounts.antt =====
-- Roles, access and memberships at a member of one team.
use terrible_naming_conventi.Base.{
  ℕ, ◌≡◌, refl, none, some, true, ◌||◌, [], ◌∷◌, contains, codes, arith,
}
use terrible_naming_conventi.Errors.{ok}
use terrible_naming_conventi.Models.{Db, User, Project, Config, member}
use terrible_naming_conventi.Access.{role_of, get_accessible_project_ids}
use terrible_naming_conventi.Access.Scope.{reaches, get_accessible_project_ids_iff}
use terrible_naming_conventi.Teams.{add_member, remove_member}
use terrible_naming_conventi.Teams.Members.{HasUniqueMembers, opens, add_member-opens}

abbrev pub no_config : Config
no_config = record {
  context_model = none;
  query_model = none;
  chunk_size = none;
  chunk_overlap = none;
  chunking_strategy = none;
  cag_rebuild_threshold = none;
}

abbrev pub project_of_team : ℕ → ℕ → Project
project_of_team id team_id = record {
  id = id;
  name = codes "p";
  description = none;
  team_id = team_id;
  config = no_config;
  created_at = 0;
}

abbrev pub ann : User
ann = record {
  id = 1;
  email = codes "a@x";
  hashed_password = codes "h";
  role = codes "member";
  is_active = true;
  created_at = 0;
}

abbrev pub office : Db
office = record {
  users = ann ∷ [];
  teams =
      record { id = 5; name = codes "t"; created_at = 0 }
      ∷ record { id = 6; name = codes "u"; created_at = 1 }
      ∷ [];
  team_members = record { user_id = 1; team_id = 5 } ∷ [];
  projects = project_of_team 7 5 ∷ project_of_team 8 6 ∷ [];
  documents = [];
  document_summaries = [];
  ingestion_jobs = [];
  belief_states = [];
}

-- after ann joined the team 6
abbrev joined : Db
joined = record office {
  team_members = record { user_id = 1; team_id = 5 } ∷ record { user_id = 1; team_id = 6 } ∷ [];
}

abbrev left : Db
left = record office { team_members = [] }

office-HasUniqueMembers : HasUniqueMembers office
office-HasUniqueMembers u t = ground arith

added : add_member 6 1 office ≡ ok joined
unfolding add_member
added = refl

parted : remove_member 5 1 office ≡ ok left
unfolding remove_member
parted = refl

known : role_of ann.role ≡ some member
unfolding role_of
known = refl

get_accessible_project_ids_iff_example :
    contains 8 (get_accessible_project_ids ann office) ≡ reaches (role_of ann.role) ann 8 office
get_accessible_project_ids_iff_example = get_accessible_project_ids_iff ann 8 office

add_member-opens_example :
    contains 8 (get_accessible_project_ids ann joined)
    ≡ (contains 8 (get_accessible_project_ids ann office) || opens 6 1 ann 8 office)
add_member-opens_example = add_member-opens 6 1 office ann member 8 known added
