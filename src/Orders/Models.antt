-- ===== src/Orders/Models.antt =====
-- core/orders/exceptions.py, core/orders/models.py and the validator of core/orders/service.py.
use coffee_buddy.Prelude.{ℕ, Bool, true, ltb, if◌then◌else◌, length}
use coffee_buddy.Effects.{Result, ok, raised}
use coffee_buddy.Text.{Text, is_empty, strip}
use coffee_buddy.Uuid.{Ref}
use coffee_buddy.Schema.{OrderProvenance, manual}

-- What `OrderValidationError` says.
pub data ValidationFault : Type 0 where
  empty : ValidationFault
  too_long : (limit : ℕ) → ValidationFault

-- The exceptions of the package, and the `ValueError` of a text that is no UUID.
pub data OrderError : Type 0 where
  value_error : OrderError
  order_validation : ValidationFault → OrderError
  run_not_found : Ref → OrderError
  run_not_open : Ref → OrderError
  preference_not_found : (user_id : Text) → OrderError
  order_not_found : (user_id run_id : Text) → OrderError
  user_not_found : Ref → OrderError

pub record OrderSubmissionRequest : Type 0 where
  pub run_id : Text
  pub user_id : Text
  pub order_text : Text
  pub confirm : Bool
  pub provenance : OrderProvenance

-- The request with the defaults of the dataclass.
abbrev pub submission : (run_id user_id order_text : Text) → OrderSubmissionRequest
submission run_id user_id order_text = record {
  run_id = run_id;
  user_id = user_id;
  order_text = order_text;
  confirm = true;
  provenance = manual;
}

pub record OrderSubmissionResult : Type 0 where
  pub order_id : Text
  pub participant_count : ℕ
  pub order_text : Text
  pub provenance : OrderProvenance
  pub preference_updated : Bool

pub record OrderCancellationResult : Type 0 where
  pub order_id : Text
  pub participant_count : ℕ

pub record UseLastOrderResult : Type 0 where
  pub preference_id : Text
  pub submission : OrderSubmissionResult

pub record OrderValidator : Type 0 where
  pub max_length : ℕ

abbrev pub default_validator : OrderValidator
default_validator = record { max_length = 280 }

unfoldable pub validate : OrderValidator → Text → Result OrderError Text
validate v order_text =
    let normalized = strip order_text in
    if is_empty normalized
    then raised (order_validation empty)
    else if ltb v.max_length (length normalized)
    then raised (order_validation (too_long v.max_length))
    else ok normalized
