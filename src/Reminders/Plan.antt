-- ===== src/Reminders/Plan.antt =====
-- `ReminderScheduler.schedule_for_run`: which reminders are published, and for when.
use coffee_buddy.Prelude.{
  ℕ, ◌+◌, ◌≡◌, Bool, true, ◌&&◌, Option, none, some, List, [], ◌∷◌, ◌++◌, map, All, count_of,
  length, is_some,
}
use coffee_buddy.Text.{Text}
use coffee_buddy.Number.{ℤ, pos, scale}
use coffee_buddy.Time.{utc, minus, minute}
use coffee_buddy.Kafka.Models.{KafkaEvent, ReminderType, runner, last_call, ReminderPayload}
use coffee_buddy.Kafka.Topics.{reminder_events_topic}
use coffee_buddy.Reminders.Scheduler.{ChannelReminderConfig, Bus, some_text, positive}
use coffee_buddy.Reminders.Worker.{should_dispatch}

module _ {D : Type 0} (dump : ReminderPayload → D) (event_type run_id : Text)
    (channel : ChannelReminderConfig) (pickup c : ℕ) (cs : Text) where
  -- How many minutes before the pickup a reminder is due.
  abbrev pub minutes_before : ReminderType → ℤ
  minutes_before runner = channel.reminder_offset_minutes
  minutes_before last_call = elim channel.last_call_lead_minutes [ none ↦ pos 0 | some m ↦ m ]

  -- A reminder for this run and channel, at its time, that the worker will send.
  pub record IsReminder (p : ReminderPayload) : Type 0 where
    pub run : p.run_id ≡ run_id
    pub of_channel : p.channel_id ≡ channel.channel_id
    pub time :
        (x : ℕ) × (minus pickup (scale minute (minutes_before p.reminder_type)) ≡ some x)
        × (p.scheduled_for ≡ utc x)
    pub sent_on : should_dispatch p ≡ true

  abbrev pub on_reminder_topic : KafkaEvent D → Text × KafkaEvent D
  on_reminder_topic e = (reminder_events_topic.name, e)

  -- The events that have been published beside those of `b` have the payloads as their content.
  abbrev pub Published : List ReminderPayload → Bus D → Bus D → Type 0
  Published l b t =
      (events : List (KafkaEvent D)) × (t.published ≡ b.published ++ map on_reminder_topic events)
      × (map (λ e. e.payload) events ≡ map dump l)
      × All (λ e. e.correlation_id ≡ c ∷ cs) events

  -- Some reminders of one type.
  record Part (kind : ReminderType) (wanted : Bool) (l : List ReminderPayload) (b t : Bus D)
      : Type 0 where
    reminders : All (λ p. IsReminder p × (p.reminder_type ≡ kind)) l
    number : length l ≡ count_of wanted
    published : Published l b t
    connections : t.connections ≡ b.connections

  module _ (b : Bus D) (takes : (n : ℕ) → b.connections.takes n ≡ true) where
    -- The payload and the event of one reminder.
    abbrev payload : Option Text → ℕ → ReminderType → ReminderPayload
    payload user x kind = record {
      reminder_id = b.connections.id_factory b.ids_drawn;
      run_id = run_id;
      channel_id = channel.channel_id;
      runner_user_id = some_text user;
      reminder_type = kind;
      scheduled_for = utc x;
      reminder_offset_minutes = channel.reminder_offset_minutes;
      channel_reminders_enabled = channel.reminders_enabled;
      last_call_enabled = channel.last_call_enabled;
      correlation_id = some (c ∷ cs);
    }

    abbrev event : Option Text → ℕ → ReminderType → KafkaEvent D
    event user x kind = record {
      event_type = event_type;
      correlation_id = c ∷ cs;
      payload = dump (payload user x kind);
      occurred_at = b.connections.clock b.clock_reads;
    }

    abbrev after : Option Text → ℕ → ReminderType → Bus D
    after user x kind = record b {
      ids_drawn = b.ids_drawn + 1;
      clock_reads = b.clock_reads + 1;
      publishes = b.publishes + 1;
      published = b.published ++ (reminder_events_topic.name, event user x kind) ∷ [];
    }

  -- Two parts, one after the other.
  pub record Planned (user : Option Text) (l : List ReminderPayload) (b t : Bus D) : Type 0 where
    pub first : List ReminderPayload
    pub second : List ReminderPayload
    pub all : l ≡ first ++ second
    pub runners : All (λ p. IsReminder p × (p.reminder_type ≡ runner)) first
    pub last_calls : All (λ p. IsReminder p × (p.reminder_type ≡ last_call)) second
    pub one_runner : length first ≡ count_of (channel.reminders_enabled && is_some (some_text user))
    pub one_last_call :
        length second
        ≡ count_of (
            (channel.reminders_enabled && channel.last_call_enabled)
            && is_some (positive channel.last_call_lead_minutes))
    pub published : Published l b t
