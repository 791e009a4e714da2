-- ===== src/Tests/Updates.antt =====
-- The update job of a project with three summaries.
use terrible_naming_conventi.Base.{ℕ, ◌≡◌, refl, none, some, [], ◌∷◌, codes, arith, List}
use terrible_naming_conventi.Errors.{ok}
use terrible_naming_conventi.Act.{Act}
use terrible_naming_conventi.Models.{Db, Text, incremental}
use terrible_naming_conventi.Schema.{BeliefStateRecord}
use terrible_naming_conventi.Samples.Sql.{postgres, first_flag}
use terrible_naming_conventi.Samples.Codec.{pydantic, content}
use terrible_naming_conventi.Sorting.{arrange}
use terrible_naming_conventi.Cag.{
  SynthesizeFn, synthesize_and_insert, synthesize_row, consume, get_latest, get_window_since,
  first_record, to_record, not_fallback, next_version,
}
use terrible_naming_conventi.Cag.Pending.{HasDistinctTimes}
use terrible_naming_conventi.Ingest.Update.{cag_update, requeued, cag_update_requeues}
use terrible_naming_conventi.Tests.Accounts.{project_of_team}
use terrible_naming_conventi.Tests.Belief.{three, answer, fresh}

abbrev pub busy : Db
busy = record three { projects = project_of_team 7 5 ∷ [] }

abbrev ask : Text → SynthesizeFn
ask model = answer

abbrev push : ℕ → Act (List ℕ) (Unit {0})
push pid queue = (ok tt, pid ∷ queue)

abbrev version_one : BeliefStateRecord
version_one = record {
  id = 100;
  project_id = 7;
  version = 1;
  rebuild_type = incremental;
  last_summary_created_at = 30;
  summary_count_covered = 3;
  created_at = 50;
  state = content;
}

abbrev pub busy_after : Db
busy_after = (synthesize_and_insert postgres pydantic 7 answer 40 fresh busy).1

outcome :
    synthesize_and_insert postgres pydantic 7 (ask (codes "m")) 40 fresh busy
    ≡ (ok (some version_one, 0), busy_after)
unfolding synthesize_and_insert synthesize_row consume get_latest get_window_since first_record
    to_record not_fallback first_flag arrange next_version
outcome = refl

no_latest : get_latest postgres pydantic 7 busy ≡ ok none
unfolding get_latest first_record arrange
no_latest = refl

busy-HasDistinctTimes : HasDistinctTimes postgres 7 busy
busy-HasDistinctTimes t = ground arith

cag_update_requeues_example :
    cag_update postgres pydantic (codes "m") ask push 7 fresh (busy, [])
    ≡ requeued postgres pydantic (codes "m") ask push 7 version_one busy_after []
cag_update_requeues_example =
    cag_update_requeues postgres pydantic (codes "m") ask push 7 fresh busy [] busy-HasDistinctTimes
      no_latest refl outcome
