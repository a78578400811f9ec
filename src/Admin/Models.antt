-- ===== src/Admin/Models.antt =====
-- api/admin/models.py and api/admin/exceptions.py
use coffee_buddy.Prelude.{ℕ, Bool, Option, List}
use coffee_buddy.Text.{Text}
use coffee_buddy.Number.{ℤ}
use coffee_buddy.Schema.{ChannelAdminActionType}

pub record AdminActor : Type 0 where
  pub user_id : Text
  pub slack_user_id : Text
  pub slack_roles : List Text

pub record ChannelConfigPatch : Type 0 where
  pub reminder_offset_minutes : Option ℤ
  pub fairness_window_runs : Option ℤ
  pub data_retention_days : Option ℤ
  pub reminders_enabled : Option Bool
  pub last_call_enabled : Option Bool
  pub last_call_lead_minutes : Option ℤ

pub data ConfigFault : Type 0 where
  out_of_range : (minimum maximum : ℕ) → ConfigFault
  lead_time_missing : ConfigFault

-- The exceptions of the package, and those of SQLAlchemy: for a query that finds two rows, and for a
-- flush that the database refuses.
pub data AdminError : Type 0 where
  multiple_results integrity_error : AdminError
  not_authorized : (slack_user_id : Text) → AdminError
  channel_not_found : (slack_channel_id : Text) → AdminError
  config_validation : (field : Text) → ConfigFault → AdminError

pub record ChannelConfigUpdateResult : Type 0 where
  pub channel_id : Text
  pub applied_fields : List Text

pub record ChannelStateChangeResult : Type 0 where
  pub channel_id : Text
  pub enabled : Bool
  pub action_type : ChannelAdminActionType

pub record DataResetResult : Type 0 where
  pub channel_id : Text
  pub orders_deleted : ℕ
  pub runs_deleted : ℕ
  pub preferences_deleted : ℕ
  pub runner_stats_deleted : ℕ
