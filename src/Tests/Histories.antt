-- ===== src/Tests/Histories.antt =====
-- A project with three summaries that is updated in batches of two and then rebuilt, with a model
-- that keeps the list of what it was told as its summary (backend/app/workers/cag.py).
use terrible_naming_conventi.Base.{ℕ, ◌≡◌, refl, some, List, [], ◌∷◌, ◌++◌, arith}
use terrible_naming_conventi.Errors.{ok, ok-injective}
use terrible_naming_conventi.Base.{ap, sym}
use terrible_naming_conventi.Models.{Db, full}
use terrible_naming_conventi.Schema.{BeliefStateContent, BeliefStateRecord}
use terrible_naming_conventi.Samples.Sql.{postgres, first_flag}
use terrible_naming_conventi.Samples.Codec.{pydantic}
use terrible_naming_conventi.Samples.Echo.{said}
use terrible_naming_conventi.Sorting.{arrange}
use terrible_naming_conventi.Cag.{
  SynthesizeFn, compaction, get_latest, get_latest_full, get_all_summaries, get_window_since,
  synthesize_and_insert, synthesize_row, consume, rebuild, rebuild_row, rebuild_start, rebuild_from,
  first_record, to_record, not_fallback, next_version,
}
use terrible_naming_conventi.Reduce.Covers.{flat, covers_of}
use terrible_naming_conventi.Jobs.Times.{own_id}
use terrible_naming_conventi.Jobs.Log.{CoversLog, IsTelling}
use terrible_naming_conventi.Jobs.History.{
  History, start, arrival, updated, rebuilt, with_summary, get_latest-CoversLog,
}
use terrible_naming_conventi.Tests.Belief.{three, fresh, summary_at, three-HasDistinctTimes}

abbrev told : BeliefStateContent → List ℕ
told c = c.project_summary

abbrev tell : SynthesizeFn
tell state window = ok (said (covers_of told state ++ flat own_id window))

tell-IsTelling : IsTelling postgres pydantic told tell
tell-IsTelling state window c h = ap told (sym (ok-injective h))

-- two of the three summaries are consumed, a fourth arrives, and a compaction takes all
abbrev updated_db : Db
updated_db = (synthesize_and_insert postgres pydantic 7 tell 2 fresh three).1

abbrev arrived : Db
arrived = with_summary (summary_at 4 40) updated_db

abbrev rebuilt_db : Db
rebuilt_db = (rebuild postgres pydantic 7 tell compaction 2 fresh arrived).1

abbrev last : BeliefStateRecord
last = record {
  id = 100;
  project_id = 7;
  version = 2;
  rebuild_type = full;
  last_summary_created_at = 40;
  summary_count_covered = 4;
  created_at = 50;
  state = said (1 ∷ 3 ∷ 2 ∷ 4 ∷ []);
}

latest_of : get_latest postgres pydantic 7 rebuilt_db ≡ ok (some last)
unfolding get_latest get_latest_full synthesize_and_insert synthesize_row consume rebuild
    rebuild_row rebuild_start rebuild_from get_all_summaries get_window_since first_record to_record
    not_fallback first_flag arrange next_version
latest_of = refl

history : History postgres pydantic told rebuilt_db
unfolding synthesize_and_insert synthesize_row consume get_latest get_window_since first_record
    to_record not_fallback first_flag arrange next_version
history =
    rebuilt
      (arrival (updated (start three refl) 7 tell 2 fresh tell-IsTelling three-HasDistinctTimes)
        (summary_at 4 40) (omega arith, tt))
      7 tell compaction 2 fresh tell-IsTelling

get_latest-CoversLog_example :
    CoversLog postgres pydantic told rebuilt_db 7 (said (1 ∷ 3 ∷ 2 ∷ 4 ∷ [])) 40
get_latest-CoversLog_example = get_latest-CoversLog postgres pydantic told 7 history latest_of
