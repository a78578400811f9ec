-- ===== src/Runs/Service.antt =====
-- core/runs/service.py: CloseRunService.
use coffee_buddy.Prelude.{
  ℕ, Bool, true, false, not, ◌&&◌, ◌||◌, Option, none, some, List, [], ◌∷◌, ◌++◌, map, ◌==◌, ltb,
  is_some, length, if◌then◌else◌,
}
use coffee_buddy.Prelude.Rows.{find, select, update}
use coffee_buddy.Effects.{Exec, pure, raise, gets, modify, some_or, ◌>>=◌, ◌>>◌}
use coffee_buddy.Text.{Text}
use coffee_buddy.Uuid.{text, to_text, as_uuid}
use coffee_buddy.Schema.{
  Session, Run, RunStatus, open_, closed, canceled, failed, User, Channel, Order, now,
}
use coffee_buddy.Runs.Models.{
  RunCloseError, value_error, run_not_found, channel_missing, run_not_open, unauthorized,
  runner_selection, no_active_orders, runner_missing, CloseRunRequest, ParticipantOrder,
  CloseRunResult,
}
use coffee_buddy.Fairness.Service.{FairnessDecision, assign_runner}

abbrev pub Action : Type 0 → Type 0
Action = Exec Session RunCloseError

abbrev pub is_open : RunStatus → Bool
is_open open_ = true
is_open closed = false
is_open canceled = false
is_open failed = false

abbrev pub is_closed : RunStatus → Bool
is_closed open_ = false
is_closed closed = true
is_closed canceled = false
is_closed failed = false

abbrev pub run_row : ℕ → Run → Bool
run_row id r = r.id == id

abbrev pub channel_row : ℕ → Channel → Bool
channel_row id c = c.id == id

abbrev pub user_row : ℕ → User → Bool
user_row id u = u.id == id

abbrev pub order_row : Order → Order → Bool
order_row o p = p.id == o.id

unfoldable pub get_run : Text → Action Run
get_run run_id = do
  id ← some_or value_error (as_uuid (text run_id))
  found ← gets (λ s. find (run_row id) s.runs)
  some_or (run_not_found run_id) found

unfoldable pub get_channel : ℕ → Action Channel
get_channel channel_id = do
  found ← gets (λ s. find (channel_row channel_id) s.channels)
  some_or (channel_missing channel_id) found

abbrev pub active_in : ℕ → Order → Bool
active_in run o = o.run_id == run && not (is_some o.canceled_at)

abbrev pub with_order : Order → List User → List (Order × User)
with_order o [] = []
with_order o (u ∷ us) = (o, u) ∷ with_order o us

-- JOIN users ON users.id = orders.user_id
unfoldable pub join_users : List User → List Order → List (Order × User)
join_users users [] = []
join_users users (o ∷ os) = with_order o (select (user_row o.user_id) users) ++ join_users users os

-- ORDER BY display_name, users.id: the row whose key is less.
abbrev pub comes_before : (Text → Text → Bool) → Order × User → Order × User → Bool
comes_before collates (o, u) (p, v) =
    collates u.display_name v.display_name
    || (not (collates v.display_name u.display_name) && ltb u.id v.id)

unfoldable pub load_active_orders : ℕ → Action (List (Order × User))
unfolding join_users
load_active_orders run_id = gets λ s.
    s.outside.order_by (comes_before s.outside.collates_before)
      (join_users s.users (select (active_in run_id) s.orders))

-- The runs that `_get_previous_runner_id` looks at.
abbrev pub is_previous : Run → Run → Bool
is_previous run r =
    r.channel_id == run.channel_id
    && is_closed r.status
    && is_some r.closed_at
    && not (r.id == run.id)
    && is_some r.runner_user_id

abbrev pub closed_time : Run → ℕ
closed_time r = elim r.closed_at [ none ↦ 0 | some t ↦ t ]

-- ORDER BY closed_at DESC LIMIT 1
unfoldable pub latest_from : Run → List Run → Run
latest_from best [] = best
latest_from best (r ∷ rs) =
    latest_from (if ltb (closed_time best) (closed_time r) then r else best) rs

abbrev pub latest : List Run → Option Run
latest [] = none
latest (r ∷ rs) = some (latest_from r rs)

abbrev pub runner_text : Option Run → Option Text
runner_text none = none
runner_text (some r) = elim r.runner_user_id [ none ↦ none | some u ↦ some (to_text u) ]

unfoldable pub get_previous_runner_id : Run → Action (Option Text)
unfolding latest_from
get_previous_runner_id run = gets λ s. runner_text (latest (select (is_previous run) s.runs))

-- The run as `_finalize_run` leaves it.
abbrev pub finalized : ℕ → ℕ → Run → Run
finalized runner_id closed_at r = record r {
  runner_user_id = some runner_id;
  status = closed;
  closed_at = some closed_at;
  updated_at = closed_at;
}

unfoldable pub finalize_run : Run → ℕ → ℕ → Action Unit
finalize_run run runner_id closed_at =
    modify λ s. record s { runs = update (run_row run.id) (finalized runner_id closed_at) s.runs }

abbrev pub final : ℕ → Order → Order
final snapshot_at o = record o { is_final = true; updated_at = snapshot_at }

abbrev pub participant_order : Order × User → ParticipantOrder
participant_order (o, u) = record {
  user_id = to_text o.user_id;
  display_name = u.display_name;
  order_text = o.order_text;
  provenance = o.provenance;
}

unfoldable pub snapshot_orders : ℕ → List (Order × User) → Action (List ParticipantOrder)
snapshot_orders snapshot_at [] = pure []
snapshot_orders snapshot_at ((o, u) ∷ rows) = do
  modify (λ s. record s { orders = update (order_row o) (final snapshot_at) s.orders })
  rest ← snapshot_orders snapshot_at rows
  pure (participant_order (o, u) ∷ rest)

abbrev pub check : Bool → RunCloseError → Action Unit
check true e = pure tt
check false e = raise e

abbrev pub some_orders : List (Order × User) → Action Unit
some_orders [] = raise (runner_selection no_active_orders)
some_orders (row ∷ rows) = pure tt

-- `close_run` from the decision on.
abbrev pub finish_run :
    Run → Channel → List (Order × User) → FairnessDecision → Action CloseRunResult
finish_run run channel rows decision = do
  runner_uuid ← some_or value_error (as_uuid (text decision.runner_user_id))
  found ← gets (λ s. find (user_row runner_uuid) s.users)
  runner ← some_or (runner_selection (runner_missing decision.runner_user_id)) found
  time ← now
  finalize_run run runner_uuid time
  participants ← snapshot_orders time rows
  pure (record {
    run_id = to_text run.id;
    channel_id = to_text channel.id;
    runner_user_id = decision.runner_user_id;
    closed_at = time;
    summary = record {
      run_id = to_text run.id;
      channel_id = to_text channel.id;
      channel_name = channel.name;
      runner_user_id = decision.runner_user_id;
      runner_display_name = runner.display_name;
      pickup_time = run.pickup_time;
      pickup_note = run.pickup_note;
      participants = participants;
      total_orders = length participants;
      reminder_offset_minutes = channel.reminder_offset_minutes;
      reminders_enabled = channel.reminders_enabled;
      last_call_enabled = channel.last_call_enabled;
      closed_at = time;
    };
    fairness_note = decision.rationale;
  })

-- `is_authorized` is the adapter that the service is given.
module _ (is_authorized : Run → Text → Bool) where
  unfoldable pub close_run : CloseRunRequest → Action CloseRunResult
  close_run request = do
    run ← get_run request.run_id
    check (is_open run.status) (run_not_open request.run_id)
    check (is_authorized run request.actor_user_id)
        (unauthorized request.actor_user_id request.run_id)
    channel ← get_channel run.channel_id
    rows ← load_active_orders run.id
    some_orders rows
    last_runner_id ← get_previous_runner_id run
    decision ←
        assign_runner (text (to_text channel.id)) (map (λ row. text (to_text row.0.user_id)) rows)
          last_runner_id request.allow_immediate_repeat
    finish_run run channel rows decision
