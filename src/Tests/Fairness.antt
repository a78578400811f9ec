-- ===== src/Tests/Fairness.antt =====
-- A choice between two users.
use coffee_buddy.Prelude.{◌≡◌, refl, false, none, some, [], ◌∷◌}
use coffee_buddy.Effects.{raised}
use coffee_buddy.Uuid.{uuid}
use coffee_buddy.Schema.{RunnerStat}
use coffee_buddy.Runs.Models.{runner_selection, no_participants}
use coffee_buddy.Fairness.Selector.{min_stat, unique_from, min_from, key_lt, sort_key}
use coffee_buddy.Fairness.Service.{assign_runner}
use coffee_buddy.Tests.Samples.{start}

assign_runner_nobody :
    assign_runner (uuid 7) [] none false start ≡ (raised (runner_selection no_participants), start)
unfolding assign_runner unique_from
assign_runner_nobody = refl

abbrev stat : RunnerStat
stat = record {
  id = 40;
  user_id = 1;
  channel_id = 7;
  runs_served_count = 2;
  last_run_at = some 900;
  created_at = 1;
  updated_at = 900;
}

-- Bob has run as often, but not since.
abbrev older : RunnerStat
older = record stat { id = 41; user_id = 2; last_run_at = some 800 }

min_stat-older : min_stat (stat ∷ older ∷ []) ≡ some older
unfolding key_lt sort_key min_from
min_stat-older = refl
