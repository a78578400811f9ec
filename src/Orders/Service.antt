-- ===== src/Orders/Service.antt =====
-- core/orders/service.py: OrderService, with its default repository and preference service.
use coffee_buddy.Prelude.{ℕ, Bool, true, false, Option, none, some}
use coffee_buddy.Effects.{Exec, pure, lift, some_or, ◌>>=◌, ◌>>◌}
use coffee_buddy.Text.{Text}
use coffee_buddy.Uuid.{uuid, text, to_text}
use coffee_buddy.Schema.{Session, Order, OrderProvenance, preference, Run, User}
use coffee_buddy.Preferences.{get_preference, set_preference, mark_used}
use coffee_buddy.Orders.Models.{
  OrderError, value_error, preference_not_found, order_not_found, OrderSubmissionRequest,
  OrderSubmissionResult, OrderCancellationResult, UseLastOrderResult, OrderValidator, validate,
}
use coffee_buddy.Orders.Repository.{
  get_order, upsert_order, cancel_row, count_active_orders, get_open_run, get_user,
}

-- `if confirm: set_preference(…); preference_updated = True`
abbrev pub remember : Bool → (user_id channel_id : ℕ) → Text → Exec Session OrderError Bool
remember true user_id channel_id order_text = do
  set_preference value_error (uuid user_id) (uuid channel_id) order_text
  pure true
remember false user_id channel_id order_text = pure false

unfoldable pub persist_order :
    Run → User → Text → Bool → OrderProvenance → Exec Session OrderError OrderSubmissionResult
persist_order run user order_text confirm provenance = do
  order ← upsert_order (uuid run.id) (uuid user.id) order_text confirm provenance
  preference_updated ← remember confirm user.id run.channel_id order.order_text
  participant_count ← count_active_orders (uuid run.id)
  pure (record {
    order_id = to_text order.id;
    participant_count = participant_count;
    order_text = order.order_text;
    provenance = provenance;
    preference_updated = preference_updated;
  })

-- An order that is there and not cancelled.
abbrev pub active_only : Option Order → Option Order
active_only none = none
active_only (some o) = elim o.canceled_at [ none ↦ some o | some t ↦ none ]

module _ (v : OrderValidator) where
  unfoldable pub submit_order :
      OrderSubmissionRequest → Exec Session OrderError OrderSubmissionResult
  submit_order request = do
    run ← get_open_run (text request.run_id)
    user ← get_user (text request.user_id)
    normalized ← lift (validate v request.order_text)
    persist_order run user normalized request.confirm request.provenance

  unfoldable pub use_last_order :
      (run_id user_id : Text) → Exec Session OrderError UseLastOrderResult
  use_last_order run_id user_id = do
    run ← get_open_run (text run_id)
    user ← get_user (text user_id)
    saved ← get_preference value_error (uuid user.id) (uuid run.channel_id)
    pref ← some_or (preference_not_found user_id) saved
    normalized ← lift (validate v pref.last_order_text)
    result ← persist_order run user normalized true preference
    mark_used pref
    pure (record { preference_id = to_text pref.id; submission = result })

unfoldable pub cancel_order :
    (run_id user_id : Text) → Exec Session OrderError OrderCancellationResult
cancel_order run_id user_id = do
  run ← get_open_run (text run_id)
  get_user (text user_id)
  found ← get_order (uuid run.id) (text user_id)
  order ← some_or (order_not_found user_id run_id) (active_only found)
  cancel_row order
  participant_count ← count_active_orders (uuid run.id)
  pure (record { order_id = to_text order.id; participant_count = participant_count })
