-- ===== src/Runs/Models.antt =====
-- core/runs/exceptions.py and core/runs/models.py
use coffee_buddy.Prelude.{ℕ, Bool, Option, List}
use coffee_buddy.Text.{Text}
use coffee_buddy.Schema.{OrderProvenance}

-- What `RunnerSelectionError` says.
pub data SelectionFault : Type 0 where
  no_participants no_active_orders : SelectionFault
  runner_missing : (runner_user_id : Text) → SelectionFault

-- The exceptions of the package, and those of the standard library that its code can raise: the
-- `ValueError` of a text that is no UUID or of an empty `min`, and the `KeyError` of a dictionary.
pub data RunCloseError : Type 0 where
  value_error key_error : RunCloseError
  run_not_found : (run_id : Text) → RunCloseError
  channel_missing : (channel_id : ℕ) → RunCloseError
  run_not_open : (run_id : Text) → RunCloseError
  unauthorized : (actor_user_id run_id : Text) → RunCloseError
  runner_selection : SelectionFault → RunCloseError

pub record CloseRunRequest : Type 0 where
  pub run_id : Text
  pub actor_user_id : Text
  pub allow_immediate_repeat : Bool

pub record ParticipantOrder : Type 0 where
  pub user_id : Text
  pub display_name : Text
  pub order_text : Text
  pub provenance : OrderProvenance

pub record RunSummary : Type 0 where
  pub run_id : Text
  pub channel_id : Text
  pub channel_name : Text
  pub runner_user_id : Text
  pub runner_display_name : Text
  pub pickup_time : Option ℕ
  pub pickup_note : Option Text
  pub participants : List ParticipantOrder
  pub total_orders : ℕ
  pub reminder_offset_minutes : ℕ
  pub reminders_enabled : Bool
  pub last_call_enabled : Bool
  pub closed_at : ℕ

-- The two values that the sentence of `_build_rationale` shows: the count before the assignment,
-- and whether it says that the previous runner was excluded.
pub record Rationale : Type 0 where
  pub previous_count : ℕ
  pub excluded_last_runner : Bool

pub record CloseRunResult : Type 0 where
  pub run_id : Text
  pub channel_id : Text
  pub runner_user_id : Text
  pub closed_at : ℕ
  pub summary : RunSummary
  pub fairness_note : Rationale
