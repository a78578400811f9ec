-- ===== src/Schema.antt =====
-- infra/db/models.py: the persisted rows and their columns, and the session that holds them.
--
-- A table is the list of its rows, in the order in which the database returns them; every theorem
-- holds for each such order. A `datetime` is the number of microseconds since `datetime.min`, in
-- UTC. A text column is a list of code points, and a UUID column the integer of its value.
pub mod Tables
pub mod Valid
use coffee_buddy.Prelude.{ℕ, ◌+◌, ◌*◌, ◌≡◌, Bool, Option, List, [], ◌∷◌, ◌++◌, ◌==◌}
use coffee_buddy.Text.{Text}
use coffee_buddy.Effects.{Exec, ok}

-- `datetime(1970, 1, 1, tzinfo=timezone.utc)`
abbrev pub epoch : ℕ
epoch = 62135596800 * 1000000

pub data RunStatus : Type 0 where
  open_ closed canceled failed : RunStatus

-- OrderProvenance of core/orders/models.py, whose values the `provenance` column holds
pub data OrderProvenance : Type 0 where
  manual preference edit : OrderProvenance

-- ChannelAdminActionType of api/admin/models.py, for the `action_type` column
pub data ChannelAdminActionType : Type 0 where
  enable disable update_config data_reset : ChannelAdminActionType

pub record User : Type 0 where
  pub id : ℕ
  pub slack_user_id : Text
  pub display_name : Text
  pub is_active : Bool
  pub created_at : ℕ
  pub updated_at : ℕ

pub record Channel : Type 0 where
  pub id : ℕ
  pub slack_channel_id : Text
  pub name : Text
  pub enabled : Bool
  pub reminder_offset_minutes : ℕ
  pub fairness_window_runs : ℕ
  pub data_retention_days : ℕ
  pub reminders_enabled : Bool
  pub last_call_enabled : Bool
  pub last_call_lead_minutes : Option ℕ
  pub last_reset_at : Option ℕ
  pub created_at : ℕ
  pub updated_at : ℕ

pub record Run : Type 0 where
  pub id : ℕ
  pub channel_id : ℕ
  pub initiator_user_id : ℕ
  pub runner_user_id : Option ℕ
  pub status : RunStatus
  pub pickup_time : Option ℕ
  pub pickup_note : Option Text
  pub started_at : ℕ
  pub closed_at : Option ℕ
  pub failure_reason : Option Text
  pub correlation_id : Text
  pub created_at : ℕ
  pub updated_at : ℕ

pub record Order : Type 0 where
  pub id : ℕ
  pub run_id : ℕ
  pub user_id : ℕ
  pub order_text : Text
  pub is_final : Bool
  pub provenance : OrderProvenance
  pub canceled_at : Option ℕ
  pub created_at : ℕ
  pub updated_at : ℕ

pub record UserPreference : Type 0 where
  pub id : ℕ
  pub user_id : ℕ
  pub channel_id : ℕ
  pub last_order_text : Text
  pub last_used_at : Option ℕ
  pub created_at : ℕ
  pub updated_at : ℕ

pub record RunnerStat : Type 0 where
  pub id : ℕ
  pub user_id : ℕ
  pub channel_id : ℕ
  pub runs_served_count : ℕ
  pub last_run_at : Option ℕ
  pub created_at : ℕ
  pub updated_at : ℕ

-- The JSON of `action_details`, as AdminService writes it.
pub data Value : Type 0 where
  number : ℕ → Value
  flag : Bool → Value
  text : Text → Value

pub data Detail : Type 0 where
  one : Value → Detail
  fields : List (Text × Value) → Detail

pub record ChannelAdminAction : Type 0 where
  pub channel_id : ℕ
  pub admin_user_id : Text
  pub action_type : ChannelAdminActionType
  pub action_details : List (Text × Detail)
  pub created_at : Option ℕ

-- What a session answers from outside: the n-th reading of the clock, the n-th `uuid4()`, the order
-- of the database's collation, how the database puts rows in the order of an ORDER BY clause, and
-- whether it takes an audit row at a flush.
pub record Outside : Type 0 where
  pub collates_before : Text → Text → Bool
  pub order_by : (Order × User → Order × User → Bool) → List (Order × User) → List (Order × User)
  pub takes_action : ChannelAdminAction → Bool
  pub clock : ℕ → ℕ
  pub uuid4 : ℕ → ℕ

-- `uuid4()` never returns a value twice.
abbrev pub NoCollisions : Outside → Type 0
NoCollisions o = (m n : ℕ) → o.uuid4 m ≡ o.uuid4 n → m ≡ n

pub record Session : Type 0 where
  pub outside : Outside
  pub clock_reads : ℕ
  pub uuids_drawn : ℕ
  pub users : List User
  pub channels : List Channel
  pub runs : List Run
  pub orders : List Order
  pub preferences : List UserPreference
  pub runner_stats : List RunnerStat
  pub admin_actions : List ChannelAdminAction

module _ {E : Type 0} where
  -- `self._clock()`
  abbrev pub now : Exec Session E ℕ
  now s = (ok (s.outside.clock s.clock_reads), record s { clock_reads = s.clock_reads + 1 })

  -- `uuid4()`
  abbrev pub fresh_uuid : Exec Session E ℕ
  fresh_uuid s = (ok (s.outside.uuid4 s.uuids_drawn), record s { uuids_drawn = s.uuids_drawn + 1 })
