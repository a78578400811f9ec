-- ===== src/Orders/Repository.antt =====
-- core/orders/repository.py
use coffee_buddy.Prelude.{
  ℕ, Bool, true, false, not, ◌&&◌, Option, none, some, [], ◌∷◌, ◌++◌, ◌==◌, is_some,
}
use coffee_buddy.Prelude.Rows.{find, update, count}
use coffee_buddy.Effects.{Exec, pure, raise, gets, modify, some_or, ◌>>=◌, ◌>>◌}
use coffee_buddy.Text.{Text}
use coffee_buddy.Uuid.{Ref, as_uuid}
use coffee_buddy.Schema.{
  Session, Order, OrderProvenance, Run, RunStatus, open_, closed, canceled, failed, User, now,
  fresh_uuid,
}
use coffee_buddy.Orders.Models.{
  OrderError, value_error, run_not_found, run_not_open, user_not_found,
}

-- The row of a run and a user, which `uq_orders_run_user` makes unique.
abbrev pub order_of : ℕ → ℕ → Order → Bool
order_of run user o = o.run_id == run && o.user_id == user

-- A persistent object stands for the row with its primary key.
abbrev pub order_row : Order → Order → Bool
order_row o p = p.id == o.id

abbrev pub is_active : Order → Bool
is_active o = not (is_some o.canceled_at)

abbrev pub active_in : ℕ → Order → Bool
active_in run o = o.run_id == run && is_active o

unfoldable pub get_order : (run_id user_id : Ref) → Exec Session OrderError (Option Order)
get_order run_id user_id = do
  run ← some_or value_error (as_uuid run_id)
  user ← some_or value_error (as_uuid user_id)
  gets (λ s. find (order_of run user) s.orders)

abbrev pub write_order : Text → Bool → OrderProvenance → ℕ → Order → Order
write_order order_text confirm provenance time o = record o {
  order_text = order_text;
  is_final = confirm;
  provenance = provenance;
  canceled_at = none;
  updated_at = time;
}

abbrev pub save_order :
    (run_id user_id : Ref)
    → Text
    → Bool
    → OrderProvenance
    → ℕ
    → Option Order
    → Exec Session OrderError Order
save_order run_id user_id order_text confirm provenance time (some order) = do
  modify (λ s. record s {
    orders = update (order_row order) (write_order order_text confirm provenance time) s.orders;
  })
  pure (write_order order_text confirm provenance time order)
save_order run_id user_id order_text confirm provenance time none = do
  id ← fresh_uuid
  run ← some_or value_error (as_uuid run_id)
  user ← some_or value_error (as_uuid user_id)
  let order : Order = record {
    id = id;
    run_id = run;
    user_id = user;
    order_text = order_text;
    is_final = confirm;
    provenance = provenance;
    canceled_at = none;
    created_at = time;
    updated_at = time;
  }
  modify (λ s. record s { orders = s.orders ++ order ∷ [] })
  pure order

unfoldable pub upsert_order :
    (run_id user_id : Ref) → Text → Bool → OrderProvenance → Exec Session OrderError Order
unfolding get_order
upsert_order run_id user_id order_text confirm provenance = do
  order ← get_order run_id user_id
  time ← now
  save_order run_id user_id order_text confirm provenance time order

abbrev pub close_order : ℕ → Order → Order
close_order time o = record o { canceled_at = some time; updated_at = time }

unfoldable pub cancel_row : Order → Exec Session OrderError Order
cancel_row order = do
  time ← now
  modify (λ s. record s { orders = update (order_row order) (close_order time) s.orders })
  pure (close_order time order)

unfoldable pub count_active_orders : Ref → Exec Session OrderError ℕ
count_active_orders run_id = do
  run ← some_or value_error (as_uuid run_id)
  gets (λ s. count (active_in run) s.orders)

abbrev pub run_row : ℕ → Run → Bool
run_row id r = r.id == id

-- RunRepository.get
unfoldable pub get_run : Ref → Exec Session OrderError Run
get_run run_id = do
  id ← some_or value_error (as_uuid run_id)
  found ← gets (λ s. find (run_row id) s.runs)
  some_or (run_not_found run_id) found

abbrev pub is_open : RunStatus → Bool
is_open open_ = true
is_open closed = false
is_open canceled = false
is_open failed = false

abbrev pub require_open : Ref → Run → Bool → Exec Session OrderError Run
require_open run_id run true = pure run
require_open run_id run false = raise (run_not_open run_id)

unfoldable pub get_open_run : Ref → Exec Session OrderError Run
unfolding get_run
get_open_run run_id = do run ← get_run run_id; require_open run_id run (is_open run.status)

abbrev pub user_row : ℕ → User → Bool
user_row id u = u.id == id

-- UserRepository.get
unfoldable pub get_user : Ref → Exec Session OrderError User
get_user user_id = do
  id ← some_or value_error (as_uuid user_id)
  found ← gets (λ s. find (user_row id) s.users)
  some_or (user_not_found user_id) found
