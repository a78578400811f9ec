-- ===== src/Tests/Reminders.antt =====
-- A last call ten minutes before the pickup, scheduled, delivered and counted.
use coffee_buddy.Prelude.{
  ℕ, ◌+◌, ◌*◌, ◌≤◌, ◌≡◌, refl, ◌⊎◌, true, false, Option, none, some, List, [], ◌∷◌, All, arith,
}
use coffee_buddy.Text.{codes}
use coffee_buddy.Number.{ℤ, pos}
use coffee_buddy.Time.{utc, minute, instant}
use coffee_buddy.Kafka.Models.{KafkaEvent, last_call, ReminderPayload}
use coffee_buddy.Kafka.Topics.{reminder_events_topic}
use coffee_buddy.Kafka.Consumer.{Arrival, exhausted, Consuming, consume_loop}
use coffee_buddy.Reminders.Scheduler.{ChannelReminderConfig, Bus}
use coffee_buddy.Reminders.Worker.{Surroundings, Node, wait_until, should_dispatch}
use coffee_buddy.Reminders.Wait.{
  Reached, SleepsEnough, SleepsWithin, wait_until-ends, wait_until_prompt,
}
use coffee_buddy.Reminders.Dispatch.{IsDue, Skips, Delivers, Fails, Misreports, process_event_lem}
use coffee_buddy.Reminders.Delivery.{worker_handler, consume_loop-IsDue}

-- Sleeps last a microsecond longer than they are asked to.
abbrev surroundings : Surroundings
surroundings = record { wake = λ now delay. now + delay + 1; delivers = λ n. true; takes = λ n. 2 }

enough : SleepsEnough surroundings
enough now delay = omega arith

within : SleepsWithin 1 surroundings
within now delay = omega arith

wait_until-ends_example :
    (t : ℕ) × (wait_until surroundings (pos 5) (pos 100) 3 40 ≡ some t) × Reached (pos 100) t
wait_until-ends_example = wait_until-ends surroundings (pos 5) (pos 100) enough 40

-- A nap of 55, and one of 4
waits : wait_until surroundings (pos 5) (pos 100) 3 40 ≡ some 101
unfolding wait_until
waits = refl

wait_until_prompt_example : (◌≡◌ {A = ℕ} 101 40) ⊎ (101 + 0 ≤ 100 + 1)
wait_until_prompt_example =
    wait_until_prompt surroundings (pos 5) (pos 100) 1 within 5 refl 2 40 101 waits

abbrev channel : ChannelReminderConfig
channel = record {
  channel_id = codes "C7";
  reminders_enabled = true;
  reminder_offset_minutes = pos 5;
  last_call_enabled = true;
  last_call_lead_minutes = some (pos 10);
}

abbrev payload : ReminderPayload
payload = record {
  reminder_id = codes "r";
  run_id = codes "run";
  channel_id = codes "C7";
  runner_user_id = none;
  reminder_type = last_call;
  scheduled_for = utc (50 * minute);
  reminder_offset_minutes = pos 5;
  channel_reminders_enabled = true;
  last_call_enabled = true;
  correlation_id = some (codes "c");
}

-- The payload is its own JSON.
abbrev accept : ReminderPayload → Option ReminderPayload
accept p = some p

abbrev event : KafkaEvent ReminderPayload
event = record {
  event_type = codes "e";
  correlation_id = codes "c";
  payload = payload;
  occurred_at = 0;
}

abbrev node : Node
node = record {
  surroundings = surroundings;
  time = 49 * minute;
  calls = 0;
  deliveries = [];
  send_total = [];
  delays = [];
}

process_event_lem_example :
    Skips accept (pos 30) event node payload
    ⊎ ((should_dispatch payload ≡ true)
        × (t : ℕ) × Reached (instant payload.scheduled_for) t
        × (((true ≡ false) × Fails accept (pos 30) event node payload)
            ⊎ ((true ≡ true)
                × (((offset : ℤ) × (payload.scheduled_for.tzinfo ≡ some offset)
                      × Delivers accept (pos 30) event node payload t)
                    ⊎ ((payload.scheduled_for.tzinfo ≡ none)
                        × Misreports accept (pos 30) event node payload t)))))
process_event_lem_example = process_event_lem accept (pos 30) event node enough payload refl

abbrev read_event : List ℕ → Option (KafkaEvent ReminderPayload)
read_event [] = none
read_event (b ∷ bs) = some event

abbrev arrivals : List Arrival
arrivals =
    (record { value = []; stopped = false }) ∷ (record { value = 1 ∷ []; stopped = false }) ∷ []

abbrev consuming : Consuming Node
consuming = record { inner = node; consume_total = [] }

consume_loop-IsDue_example :
    All IsDue
      (consume_loop read_event
        (worker_handler accept (pos 30))
        reminder_events_topic.name
        arrivals
        exhausted
        consuming).1.inner.deliveries
consume_loop-IsDue_example =
    consume_loop-IsDue accept (pos 30) read_event arrivals exhausted consuming enough tt

abbrev bus : Bus ReminderPayload
bus = record {
  connections = record { id_factory = λ n. codes "r"; clock = λ n. n; takes = λ n. true };
  ids_drawn = 0;
  clock_reads = 0;
  publishes = 0;
  published = [];
}

abbrev dump : ReminderPayload → ReminderPayload
dump p = p
