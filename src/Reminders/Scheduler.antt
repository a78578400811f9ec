-- ===== src/Reminders/Scheduler.antt =====
-- jobs/reminders/scheduler.py: ReminderScheduler.
use coffee_buddy.Prelude.{
  ℕ, zero, suc, ◌+◌, Bool, true, false, ◌&&◌, Option, none, some, List, [], ◌∷◌, ◌++◌,
  if◌then◌else◌,
}
use coffee_buddy.Effects.{Exec, ok, raised, pure, some_or, ◌>>=◌, ◌>>◌}
use coffee_buddy.Text.{Text, is_empty}
use coffee_buddy.Number.{ℤ, pos, negsuc, scale}
use coffee_buddy.Time.{DateTime, utc, minus, minute}
use coffee_buddy.Kafka.Models.{
  KafkaEvent, new_event, ReminderType, runner, last_call, ReminderPayload,
}
use coffee_buddy.Kafka.Topics.{reminder_events_topic}

pub record ChannelReminderConfig : Type 0 where
  pub channel_id : Text
  pub reminders_enabled : Bool
  pub reminder_offset_minutes : ℤ
  pub last_call_enabled : Bool
  pub last_call_lead_minutes : Option ℤ

pub data ScheduleError : Type 0 where
  overflow_error validation_error publish_failed : ScheduleError

-- What the scheduler is connected with: the n-th identifier of the factory, the n-th reading of the
-- clock that stamps an event, and whether the publisher takes the n-th event.
pub record Connections : Type 0 where
  pub id_factory : ℕ → Text
  pub clock : ℕ → ℕ
  pub takes : ℕ → Bool

-- The calls so far, and what has been published on which topic.
pub record Bus (D : Type 0) : Type 0 where
  pub connections : Connections
  pub ids_drawn : ℕ
  pub clock_reads : ℕ
  pub publishes : ℕ
  pub published : List (Text × KafkaEvent D)

-- `self._id_factory()`, and the time of a new event
module _ {D : Type 0} where
  abbrev pub new_id : Exec (Bus D) ScheduleError Text
  new_id b = (ok (b.connections.id_factory b.ids_drawn), record b { ids_drawn = b.ids_drawn + 1 })

  abbrev pub occurred_now : Exec (Bus D) ScheduleError ℕ
  occurred_now b =
      (ok (b.connections.clock b.clock_reads), record b { clock_reads = b.clock_reads + 1 })

  -- `self._publisher.publish(topic=…, event=…)`
  abbrev pub publish_event : Text → KafkaEvent D → Exec (Bus D) ScheduleError Unit
  publish_event topic event b =
      let asked = record b { publishes = b.publishes + 1 } in
      if b.connections.takes b.publishes
      then (ok tt, record asked { published = b.published ++ (topic, event) ∷ [] })
      else (raised publish_failed, asked)

-- `str(x) if x else None`
abbrev pub some_text : Option Text → Option Text
some_text none = none
some_text (some t) = if is_empty t then none else some t

-- `_as_aware`: the time in UTC; `none` is an `OverflowError`.
abbrev pub as_aware : DateTime → Option ℕ
as_aware d = elim d.tzinfo [ none ↦ some d.ticks | some offset ↦ minus d.ticks offset ]

-- `x and x > 0`, of the lead time
abbrev pub positive : Option ℤ → Option ℤ
positive none = none
positive (some (negsuc n)) = none
positive (some (pos zero)) = none
positive (some (pos (suc n))) = some (pos (suc n))

-- `dump` is `model_dump` of pydantic.
module _ {D : Type 0} (dump : ReminderPayload → D) where
  abbrev pub Action : Type 0 → Type 0
  Action = Exec (Bus D) ScheduleError

  abbrev pub build_payload :
      Text → ChannelReminderConfig → Option Text → ℕ → ReminderType → Text → Action ReminderPayload
  build_payload run_id channel runner_user_id scheduled_for reminder_type correlation_id = do
    id ← new_id
    pure (record {
      reminder_id = id;
      run_id = run_id;
      channel_id = channel.channel_id;
      runner_user_id = some_text runner_user_id;
      reminder_type = reminder_type;
      scheduled_for = utc scheduled_for;
      reminder_offset_minutes = channel.reminder_offset_minutes;
      channel_reminders_enabled = channel.reminders_enabled;
      last_call_enabled = channel.last_call_enabled;
      correlation_id = some correlation_id;
    })

  abbrev pub publish : Text → Text → ReminderPayload → Action Unit
  publish event_type correlation_id payload = do
    time ← occurred_now
    event ← some_or validation_error (new_event event_type correlation_id (dump payload) time)
    publish_event reminder_events_topic.name event

  -- One reminder: its time, its payload, and its publication.
  abbrev pub schedule :
      Text
      → Text
      → ChannelReminderConfig
      → Option Text
      → ℕ
      → ℤ
      → ReminderType
      → Text
      → Action ReminderPayload
  schedule event_type run_id channel runner_user_id pickup minutes reminder_type correlation_id = do
    scheduled_for ← some_or overflow_error (minus pickup (scale minute minutes))
    payload ← build_payload run_id channel runner_user_id scheduled_for reminder_type correlation_id
    publish event_type correlation_id payload
    pure payload

  -- `if reminders_enabled and runner_user_id:`
  abbrev pub schedule_runner :
      Text
      → Text
      → ChannelReminderConfig
      → ℕ
      → Text
      → Bool
      → Option Text
      → Action (List ReminderPayload)
  schedule_runner event_type run_id channel pickup correlation_id false id = pure []
  schedule_runner event_type run_id channel pickup correlation_id true none = pure []
  schedule_runner event_type run_id channel pickup correlation_id true (some id) = do
    payload ←
        schedule event_type run_id channel (some id) pickup channel.reminder_offset_minutes runner
          correlation_id
    pure (payload ∷ [])

  -- `if reminders_enabled and last_call_enabled and last_call_lead_minutes > 0:`
  abbrev pub schedule_last_call :
      Text
      → Text
      → ChannelReminderConfig
      → ℕ
      → Text
      → Bool
      → Option ℤ
      → Action (List ReminderPayload)
  schedule_last_call event_type run_id channel pickup correlation_id false lead = pure []
  schedule_last_call event_type run_id channel pickup correlation_id true none = pure []
  schedule_last_call event_type run_id channel pickup correlation_id true (some lead) = do
    payload ← schedule event_type run_id channel none pickup lead last_call correlation_id
    pure (payload ∷ [])

  abbrev pub schedule_at :
      Text
      → Text
      → Option Text
      → ChannelReminderConfig
      → Text
      → DateTime
      → Action (List ReminderPayload)
  schedule_at event_type run_id runner_user_id channel correlation_id pickup_time = do
    pickup ← some_or overflow_error (as_aware pickup_time)
    first ←
        schedule_runner event_type run_id channel pickup correlation_id channel.reminders_enabled
          (some_text runner_user_id)
    second ←
        schedule_last_call event_type run_id channel pickup correlation_id
          (channel.reminders_enabled && channel.last_call_enabled)
          (positive channel.last_call_lead_minutes)
    pure (first ++ second)

  unfoldable pub schedule_for_run :
      (event_type run_id : Text)
      → Option DateTime
      → Option Text
      → ChannelReminderConfig
      → Text
      → Action (List ReminderPayload)
  schedule_for_run event_type run_id none runner_user_id channel correlation_id = pure []
  schedule_for_run event_type run_id (some pickup_time) runner_user_id channel correlation_id =
      schedule_at event_type run_id runner_user_id channel correlation_id pickup_time
