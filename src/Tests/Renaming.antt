-- ===== src/Tests/Renaming.antt =====
-- A project is renamed and deleted, with a vector store that fails.
use terrible_naming_conventi.Base.{ℕ, suc, ◌≡◌, refl, none, some, [], ◌∷◌, codes}
use terrible_naming_conventi.Errors.{ok, err, timeout_error}
use terrible_naming_conventi.Models.{Db, Project}
use terrible_naming_conventi.Projects.{ProjectUpdate, changed, get_by_id, update, Client}
use terrible_naming_conventi.Tests.Accounts.{office, project_of_team}

abbrev renaming : ProjectUpdate
renaming = record { name = some (codes "new"); description = none }

abbrev renamed : Project
renamed = changed renaming (project_of_team 7 5)

abbrev office_renamed : Db
office_renamed = record office { projects = renamed ∷ project_of_team 8 6 ∷ [] }

updated : update 7 renaming (7 ∷ []) office ≡ ok (renamed, office_renamed)
unfolding update get_by_id
updated = refl

abbrev unreachable : Client ℕ
unreachable = record {
  collection_exists = λ pid n. (err timeout_error, suc n);
  delete_collection = λ pid n. (ok tt, suc n);
}
