-- ===== src/Tests/Samples.antt =====
-- A channel, two users, an open run and an order.
use coffee_buddy.Prelude.{◌+◌, refl, true, none, [], ◌∷◌, arith}
use coffee_buddy.Prelude.Rows.{find}
use coffee_buddy.Text.{Text, codes, text_lt}
use coffee_buddy.Runs.Rows.{KeepsRows}
use coffee_buddy.Tests.Sorting.{sort_rows, All-sort_rows}
use coffee_buddy.Schema.{Outside, NoCollisions, Session, User, Channel, Run, Order, open_, manual}
use coffee_buddy.Schema.Valid.{IsValid}

abbrev pub outside : Outside
outside = record {
  collates_before = text_lt;
  order_by = sort_rows;
  takes_action = λ a. true;
  clock = λ n. 1000 + n;
  uuid4 = λ n. 100 + n;
}

pub outside-KeepsRows : KeepsRows outside
outside-KeepsRows P before xs h = All-sort_rows P before xs h

pub outside-NoCollisions : NoCollisions outside
outside-NoCollisions m n h = omega arith

abbrev pub alice : User
alice = record {
  id = 1;
  slack_user_id = codes "U1";
  display_name = codes "Alice";
  is_active = true;
  created_at = 0;
  updated_at = 0;
}

abbrev pub bob : User
bob = record alice { id = 2; slack_user_id = codes "U2"; display_name = codes "Bob" }

abbrev pub channel : Channel
channel = record {
  id = 7;
  slack_channel_id = codes "C7";
  name = codes "coffee";
  enabled = true;
  reminder_offset_minutes = 5;
  fairness_window_runs = 5;
  data_retention_days = 90;
  reminders_enabled = true;
  last_call_enabled = true;
  last_call_lead_minutes = none;
  last_reset_at = none;
  created_at = 0;
  updated_at = 0;
}

abbrev pub run : Run
run = record {
  id = 10;
  channel_id = 7;
  initiator_user_id = 1;
  runner_user_id = none;
  status = open_;
  pickup_time = none;
  pickup_note = none;
  started_at = 5;
  closed_at = none;
  failure_reason = none;
  correlation_id = codes "x";
  created_at = 5;
  updated_at = 5;
}

abbrev pub next_run : Run
next_run = record run { id = 11 }

abbrev pub order : Order
order = record {
  id = 20;
  run_id = 10;
  user_id = 1;
  order_text = codes "latte";
  is_final = true;
  provenance = manual;
  canceled_at = none;
  created_at = 6;
  updated_at = 6;
}

abbrev pub start : Session
start = record {
  outside = outside;
  clock_reads = 0;
  uuids_drawn = 0;
  users = alice ∷ bob ∷ [];
  channels = channel ∷ [];
  runs = run ∷ next_run ∷ [];
  orders = order ∷ [];
  preferences = [];
  runner_stats = [];
  admin_actions = [];
}

pub start-IsValid : IsValid start
unfolding find
start-IsValid = record {
  orders = record {
    distinct_ids = (refl, tt);
    distinct_keys = (refl, tt);
    unused = λ n h. ground arith;
  };
  preferences = record { distinct_ids = tt; distinct_keys = tt; unused = λ n h. refl };
  runner_stats = record { distinct_ids = tt; distinct_keys = tt; unused = λ n h. refl };
}

-- The texts of the identifiers 1, 2, 10 and 11.
abbrev pub alice_id : Text
alice_id = codes "00000000-0000-0000-0000-000000000001"

abbrev pub bob_id : Text
bob_id = codes "00000000-0000-0000-0000-000000000002"

abbrev pub run_id : Text
run_id = codes "00000000-0000-0000-0000-00000000000a"

abbrev pub next_run_id : Text
next_run_id = codes "00000000-0000-0000-0000-00000000000B"
