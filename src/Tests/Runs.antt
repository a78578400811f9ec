-- ===== src/Tests/Runs.antt =====
-- Closing the run of the example.
use coffee_buddy.Prelude.{ℕ, ◌≡◌, refl, Bool, true, false, none, some, [], ◌∷◌, ◌⊎◌, All}
use coffee_buddy.Prelude.Rows.{find, select, update}
use coffee_buddy.Effects.{ok, raised}
use coffee_buddy.Text.{
  Text, codes, text_lt, text_eq, strip, strip_by, trim_start, trim_end, is_space, remove_all,
  remove_from, starts_with,
}
use coffee_buddy.Uuid.{text, to_text, of_text, as_uuid}
use coffee_buddy.Schema.{Session, Run}
use coffee_buddy.Orders.Models.{submission, default_validator, run_not_open as order_run_not_open}
use coffee_buddy.Orders.Service.{submit_order}
use coffee_buddy.Runs.Models.{CloseRunRequest, CloseRunResult, run_not_open, unauthorized}
use coffee_buddy.Runs.Service.{
  join_users, get_run, get_channel, load_active_orders, get_previous_runner_id, latest_from,
  finalize_run, snapshot_orders, close_run,
}
use coffee_buddy.Fairness.Service.{assign_runner, load_stats, create_missing, parse_all, among}
use coffee_buddy.Fairness.Selector.{
  unique_from, contains, get_stat, put_stat, by_user, min_from, candidates, excludes, key_lt,
  sort_key,
}
use coffee_buddy.Runs.Frame.{StatsOnly}
use coffee_buddy.Runs.Closable.{IsClosable}
use coffee_buddy.Runs.Shut.{close_run-raised, close_run-close_run, submit_order-close_run}
use coffee_buddy.Runs.Previous.{IsEarlier, IsLatest, get_previous_runner_id_lem}
use coffee_buddy.Tests.Sorting.{insert_row, sort_rows}
use coffee_buddy.Tests.Samples.{start, run, channel, alice, order, run_id, alice_id, bob_id}

-- The one who opened a run may close it.
abbrev initiator_closes : Run → Text → Bool
initiator_closes r actor = text_eq (to_text r.initiator_user_id) actor

abbrev request : CloseRunRequest
request = record { run_id = run_id; actor_user_id = alice_id; allow_immediate_repeat = false }

abbrev by_bob : CloseRunRequest
by_bob = record { run_id = run_id; actor_user_id = bob_id; allow_immediate_repeat = false }

request-IsClosable : IsClosable initiator_closes request start
unfolding find select as_uuid of_text remove_all remove_from starts_with strip strip_by trim_start
    trim_end is_space to_text text_eq join_users insert_row sort_rows
request-IsClosable = record {
  run = run;
  channel = channel;
  first = (order, alice);
  others = [];
  run_found = refl;
  run_open = refl;
  authorized = refl;
  channel_found = refl;
  rows = refl;
}

close_run-by_bob :
    close_run initiator_closes by_bob start ≡ (raised (unauthorized bob_id run_id), start)
unfolding close_run get_run find as_uuid of_text remove_all remove_from starts_with strip strip_by
    trim_start trim_end is_space to_text text_eq
close_run-by_bob = refl

close_run-raised_example : StatsOnly start start
close_run-raised_example =
    close_run-raised initiator_closes by_bob start (unauthorized bob_id run_id) start
      close_run-by_bob

get_previous_runner_id_lem_example :
    ((get_previous_runner_id run start ≡ (ok none, start))
      × All (λ r. (t : ℕ) (u : ℕ) → IsEarlier run r t u → ⊥) start.runs)
    ⊎ ((b : Run) × (time : ℕ) × (user : ℕ) × IsLatest run start.runs b time user
        × (get_previous_runner_id run start ≡ (ok (some (to_text user)), start)))
get_previous_runner_id_lem_example = get_previous_runner_id_lem run start

abbrev shut : Session
shut = (close_run initiator_closes request start).1

-- Alice runs, and the order of the example is final.
abbrev closing : CloseRunResult
closing = record {
  run_id = run_id;
  channel_id = to_text 7;
  runner_user_id = alice_id;
  closed_at = 1002;
  summary = record {
    run_id = run_id;
    channel_id = to_text 7;
    channel_name = channel.name;
    runner_user_id = alice_id;
    runner_display_name = alice.display_name;
    pickup_time = none;
    pickup_note = none;
    participants =
        (record {
          user_id = alice_id;
          display_name = alice.display_name;
          order_text = order.order_text;
          provenance = order.provenance;
        })
        ∷ [];
    total_orders = 1;
    reminder_offset_minutes = 5;
    reminders_enabled = true;
    last_call_enabled = true;
    closed_at = 1002;
  };
  fairness_note = record { previous_count = 0; excluded_last_runner = false };
}

shut_lem : close_run initiator_closes request start ≡ (ok closing, shut)
unfolding close_run get_run get_channel load_active_orders join_users insert_row sort_rows
    get_previous_runner_id latest_from finalize_run snapshot_orders find select update as_uuid
    of_text remove_all remove_from starts_with strip strip_by trim_start trim_end is_space to_text
    text_eq assign_runner load_stats create_missing unique_from contains parse_all among get_stat
    put_stat by_user min_from candidates excludes key_lt sort_key text_lt
shut_lem = refl

close_run-close_run_example :
    close_run initiator_closes by_bob shut ≡ (raised (run_not_open run_id), shut)
close_run-close_run_example =
    close_run-close_run initiator_closes request start shut closing by_bob shut_lem refl

submit_order-close_run_example :
    submit_order default_validator (submission run_id bob_id (codes "tea")) shut
    ≡ (raised (order_run_not_open (text run_id)), shut)
submit_order-close_run_example =
    submit_order-close_run initiator_closes request start shut closing default_validator
      (submission run_id bob_id (codes "tea")) shut_lem refl
