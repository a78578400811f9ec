-- ===== src/Fairness/Service.antt =====
-- services/fairness/service.py: FairnessService on a session.
use coffee_buddy.Prelude.{
  ℕ, ◌+◌, Bool, true, false, ◌&&◌, Option, none, some, List, [], ◌∷◌, ◌++◌, ◌==◌, ◌||◌, is_some,
}
use coffee_buddy.Prelude.Rows.{select, update}
use coffee_buddy.Effects.{Exec, pure, raise, gets, modify, some_or, ◌>>=◌, ◌>>◌}
use coffee_buddy.Text.{Text}
use coffee_buddy.Uuid.{Ref, text, to_text, as_uuid}
use coffee_buddy.Schema.{Session, RunnerStat, now, fresh_uuid}
use coffee_buddy.Runs.Models.{
  RunCloseError, value_error, key_error, runner_selection, no_participants, Rationale,
}
use coffee_buddy.Fairness.Selector.{
  Stats, unique_ordered, get_stat, put_stat, by_user, min_stat, candidates, excludes,
}

pub record FairnessDecision : Type 0 where
  pub runner_user_id : Text
  pub rationale : Rationale

-- `[_as_uuid(pid) for pid in participants]`
unfoldable pub parse_all : List Text → Option (List ℕ)
parse_all [] = some []
parse_all (t ∷ ts) = elim (as_uuid (text t)) [
  | none ↦ none
  | some u ↦ elim (parse_all ts) [ none ↦ none | some us ↦ some (u ∷ us) ]
]

unfoldable pub among : List ℕ → ℕ → Bool
among [] u = false
among (x ∷ xs) u = x == u || among xs u

abbrev pub stat_of : ℕ → ℕ → RunnerStat → Bool
stat_of channel user st = st.user_id == user && st.channel_id == channel

abbrev pub stat_row : RunnerStat → RunnerStat → Bool
stat_row a b = b.id == a.id

-- The body of the loop of `_load_stats`, for a participant who is not in the dictionary.
abbrev pub create_stat : ℕ → Text → Stats → Exec Session RunCloseError Stats
create_stat channel participant stats = do
  user ← some_or value_error (as_uuid (text participant))
  time ← now
  id ← fresh_uuid
  let st : RunnerStat = record {
    id = id;
    user_id = user;
    channel_id = channel;
    runs_served_count = 0;
    last_run_at = none;
    created_at = time;
    updated_at = time;
  }
  modify (λ s. record s { runner_stats = s.runner_stats ++ st ∷ [] })
  pure (put_stat participant st stats)

abbrev pub keep_or_create : Bool → ℕ → Text → Stats → Exec Session RunCloseError Stats
keep_or_create true channel participant stats = pure stats
keep_or_create false channel participant stats = create_stat channel participant stats

unfoldable pub create_missing : ℕ → List Text → Stats → Exec Session RunCloseError Stats
create_missing channel [] stats = pure stats
create_missing channel (p ∷ ps) stats = do
  stats' ← keep_or_create (is_some (get_stat p stats)) channel p stats
  create_missing channel ps stats'

unfoldable pub load_stats : ℕ → List Text → Exec Session RunCloseError Stats
load_stats channel participants = do
  users ← some_or value_error (parse_all participants)
  rows ←
      gets (λ s. select (λ st. st.channel_id == channel && among users st.user_id) s.runner_stats)
  create_missing channel participants (by_user [] rows)

-- The row of a runner who has been chosen at `time`. Its `created_at` is never `None`: the column
-- is not nullable, and every statistic is created with one.
abbrev pub serve : ℕ → RunnerStat → RunnerStat
serve time st = record st {
  runs_served_count = st.runs_served_count + 1;
  last_run_at = some time;
  updated_at = time;
}

abbrev pub some_participants : List Text → Exec Session RunCloseError Unit
some_participants [] = raise (runner_selection no_participants)
some_participants (p ∷ ps) = pure tt

-- `assign_runner` from the statistics on.
abbrev pub choose_runner : Option Text → Bool → Stats → Exec Session RunCloseError FairnessDecision
choose_runner last_runner_id allow_immediate_repeat stats = do
  chosen ← some_or value_error (min_stat (candidates allow_immediate_repeat last_runner_id stats))
  time ← now
  modify (λ s. record s { runner_stats = update (stat_row chosen) (serve time) s.runner_stats })
  before ← some_or key_error (get_stat (to_text chosen.user_id) stats)
  pure (record {
    runner_user_id = to_text chosen.user_id;
    rationale = record {
      previous_count = before.runs_served_count;
      excluded_last_runner = excludes allow_immediate_repeat last_runner_id stats;
    };
  })

unfoldable pub assign_runner :
    Ref → List Ref → Option Text → Bool → Exec Session RunCloseError FairnessDecision
assign_runner channel_id participant_user_ids last_runner_id allow_immediate_repeat = do
  let participants = unique_ordered participant_user_ids
  some_participants participants
  channel ← some_or value_error (as_uuid channel_id)
  stats ← load_stats channel participants
  choose_runner last_runner_id allow_immediate_repeat stats
