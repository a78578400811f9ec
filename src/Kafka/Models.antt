-- ===== src/Kafka/Models.antt =====
-- infra/kafka/models.py. Pydantic dumps and validates; what it makes of a payload is of type `D`.
use coffee_buddy.Prelude.{ℕ, Bool, Option, none, some, [], ◌∷◌}
use coffee_buddy.Text.{Text}
use coffee_buddy.Time.{DateTime}
use coffee_buddy.Number.{ℤ}

pub record KafkaEvent (D : Type 0) : Type 0 where
  pub event_type : Text
  pub correlation_id : Text
  pub payload : D
  pub occurred_at : ℕ

-- The constructor, with the validator `_ensure_correlation`; `none` is its `ValidationError`.
abbrev pub new_event : {D : Type 0} → Text → Text → D → ℕ → Option (KafkaEvent D)
new_event event_type [] payload occurred_at = none
new_event event_type (c ∷ cs) payload occurred_at = some (record {
  event_type = event_type;
  correlation_id = c ∷ cs;
  payload = payload;
  occurred_at = occurred_at;
})

pub data ReminderType : Type 0 where
  runner last_call : ReminderType

pub record ReminderPayload : Type 0 where
  pub reminder_id : Text
  pub run_id : Text
  pub channel_id : Text
  pub runner_user_id : Option Text
  pub reminder_type : ReminderType
  pub scheduled_for : DateTime
  pub reminder_offset_minutes : ℤ
  pub channel_reminders_enabled : Bool
  pub last_call_enabled : Bool
  pub correlation_id : Option Text
