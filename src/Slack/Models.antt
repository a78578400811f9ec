-- ===== src/Slack/Models.antt =====
-- api/slack_runs/models.py, models/run.py, events/run.py, and the fields of config.py that are read.
use coffee_buddy.Prelude.{Bool, true, false, Option, none, some, List, [], ◌∷◌}
use coffee_buddy.Text.{Text}
use coffee_buddy.Number.{ℤ}
use coffee_buddy.Time.{DateTime}

pub record SlackCommandPayload : Type 0 where
  pub token : Text
  pub team_id : Text
  pub channel_id : Text
  pub channel_name : Text
  pub user_id : Text
  pub user_name : Text
  pub text : Text
  pub trigger_id : Text
  pub response_url : Text

pub record RunCommandOptions : Type 0 where
  pub pickup_time : Option DateTime
  pub pickup_note : Option Text
  pub errors : Option (List Text)

unfoldable pub has_errors : RunCommandOptions → Bool
has_errors o = elim o.errors [ none ↦ false | some [] ↦ false | some (e ∷ es) ↦ true ]

-- models/run.py
pub record Run : Type 0 where
  pub id : Text
  pub channel_id : Text
  pub initiator_user_id : Text
  pub status : Text
  pub pickup_time : Option DateTime
  pub pickup_note : Option Text
  pub correlation_id : Text
  pub started_at : DateTime
  pub created_at : DateTime
  pub updated_at : DateTime

pub record RunCreatedEvent : Type 0 where
  pub run_id : Text
  pub channel_id : Text
  pub initiator_user_id : Text
  pub pickup_time : Option Text
  pub pickup_note : Option Text
  pub correlation_id : Text
  pub created_at : Text

-- config.py
pub record Settings : Type 0 where
  pub slack_signing_secret : Text
  pub database_url : Text
  pub kafka_bootstrap_servers : Text
  pub run_events_topic : Text
  pub app_name : Text
  pub slack_timestamp_tolerance_seconds : ℤ
