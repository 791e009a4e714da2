-- ===== src/Tests/Rebuilds.antt =====
-- Rebuilds (backend/app/services/cag.py) of the project of `Belief`, before and after an update.
use terrible_naming_conventi.Base.{◌≡◌, refl, none, some}
use terrible_naming_conventi.Errors.{ok}
use terrible_naming_conventi.Models.{Db, full}
use terrible_naming_conventi.Schema.{BeliefStateRecord}
use terrible_naming_conventi.Samples.Sql.{postgres, first_flag}
use terrible_naming_conventi.Sorting.{arrange}
use terrible_naming_conventi.Samples.Codec.{pydantic, content}
use terrible_naming_conventi.Tests.Belief.{
  three, answer, fresh, three-IsNumbered, three-HasDistinctTimes,
}
use terrible_naming_conventi.Cag.{
  compaction, genesis, not_fallback, to_record, first_record, get_latest, get_window_since,
  get_all_summaries, count_pending, next_version, rebuild, rebuild_row, rebuild_start, rebuild_from,
  synthesize_and_insert,
}
use terrible_naming_conventi.Cag.Versions.{IsNumbered}
use terrible_naming_conventi.Cag.Increment.{synthesize-IsNumbered}
use terrible_naming_conventi.Cag.Counted.{IsCounted, rebuild-IsCounted, synthesize-IsCounted}
use terrible_naming_conventi.Cag.Coverage.{rebuild-IsNumbered, rebuild_covers_all}

-- the tables after one update
abbrev updated : Db
updated = (synthesize_and_insert postgres pydantic 7 answer 2 fresh three).1

abbrev whole : BeliefStateRecord
whole = record {
  id = 100;
  project_id = 7;
  version = 1;
  rebuild_type = full;
  last_summary_created_at = 30;
  summary_count_covered = 3;
  created_at = 50;
  state = content;
}

first_rebuild :
    (rebuild postgres pydantic 7 answer genesis 2 fresh three).0 ≡ ok (some (whole, none))
unfolding rebuild rebuild_row rebuild_start rebuild_from get_latest get_all_summaries
    get_window_since first_record to_record not_fallback first_flag arrange next_version
first_rebuild = refl

rebuild-IsNumbered_example :
    IsNumbered (rebuild postgres pydantic 7 answer compaction 2 fresh updated).1
rebuild-IsNumbered_example =
    rebuild-IsNumbered postgres pydantic 7 answer compaction 2 fresh updated
      (synthesize-IsNumbered postgres pydantic 7 answer 2 fresh three three-IsNumbered)

rebuild-IsCounted_example :
    IsCounted postgres (rebuild postgres pydantic 7 answer compaction 2 fresh updated).1
rebuild-IsCounted_example =
    rebuild-IsCounted postgres pydantic 7 answer 2 fresh updated compaction
      (synthesize-IsCounted postgres pydantic 7 answer 2 fresh three three-HasDistinctTimes tt)

rebuild_covers_all_example :
    let db' = (rebuild postgres pydantic 7 answer genesis 2 fresh three).1 in
    (get_latest postgres pydantic 7 db' ≡ ok (some whole))
    × (get_latest postgres pydantic 7 three ≡ ok none)
    × (whole.rebuild_type ≡ full)
    × (count_pending postgres 7 (some 30) db' ≡ 0)
rebuild_covers_all_example =
    rebuild_covers_all postgres pydantic 7 answer genesis 2 fresh three whole none first_rebuild
