-- ===== src/Tests/Orders.antt =====
-- Orders of two users in one run.
use coffee_buddy.Prelude.{◌≡◌, ◌↔◌, refl, true, none, [], ◌∷◌, arith}
use coffee_buddy.Prelude.Rows.{find, count, update}
use coffee_buddy.Effects.{ok, raised}
use coffee_buddy.Text.{
  Text, codes, strip, strip_by, trim_start, trim_end, is_space, remove_all, remove_from,
  starts_with,
}
use coffee_buddy.Uuid.{text, to_text, of_text, as_uuid}
use coffee_buddy.Schema.{Session, UserPreference}
use coffee_buddy.Schema.Valid.{IsValid}
use coffee_buddy.Preferences.{get_preference, set_preference}
use coffee_buddy.Orders.Models.{
  OrderSubmissionRequest, OrderSubmissionResult, OrderCancellationResult, UseLastOrderResult,
  submission, default_validator, validate, order_not_found, run_not_found,
}
use coffee_buddy.Orders.Repository.{
  get_order, upsert_order, cancel_row, count_active_orders, get_run, get_open_run, get_user,
}
use coffee_buddy.Orders.Service.{persist_order, submit_order, use_last_order, cancel_order}
use coffee_buddy.Orders.Persist.{Persisted}
use coffee_buddy.Orders.Cancel.{
  IsCancellable, Canceled, cancel_order-Canceled, cancel_order-raised, cancel_order-cancel_order,
}
use coffee_buddy.Orders.Reuse.{IsReusable, Reused, use_last_order-Reused}
use coffee_buddy.Orders.RoundTrip.{use_last_order-submit_order}
use coffee_buddy.Orders.Reach.{submit, reuse, cancel, here, next, Reach-IsValid}
use coffee_buddy.Orders.Validate.{IsOrderText, validate-ok}
use coffee_buddy.Orders.Submit.{
  IsAcceptable, submit_order-Persisted, submit_order-ok, submit_order-raised,
}
use coffee_buddy.Tests.Samples.{
  outside-NoCollisions, start, start-IsValid, run, next_run, alice, bob, order, run_id, next_run_id,
  alice_id, bob_id,
}

-- Bob orders for the first time.
abbrev request : OrderSubmissionRequest
request = submission run_id bob_id (codes "  tea ")

abbrev tea : Text
tea = codes "tea"

request-IsAcceptable : IsAcceptable default_validator request start
unfolding find as_uuid of_text remove_all remove_from starts_with validate strip strip_by trim_start
    trim_end is_space
request-IsAcceptable = record {
  run = run;
  user = bob;
  normalized = tea;
  run_found = refl;
  run_open = refl;
  user_found = refl;
  text_valid = refl;
}

abbrev placed : Session
placed = (submit_order default_validator request start).1

abbrev placed_result : OrderSubmissionResult
placed_result = record {
  order_id = to_text 100;
  participant_count = 2;
  order_text = tea;
  provenance = request.provenance;
  preference_updated = true;
}

placed_lem : submit_order default_validator request start ≡ (ok placed_result, placed)
unfolding submit_order get_open_run get_run get_user find as_uuid of_text remove_all remove_from
    starts_with validate strip strip_by trim_start trim_end is_space persist_order upsert_order
    get_order set_preference get_preference count_active_orders count
placed_lem = refl

submit_order-Persisted_example :
    (result : OrderSubmissionResult) × (t : Session) × (submit_order default_validator request start
      ≡ (ok result, t))
    × Persisted request-IsAcceptable.run request-IsAcceptable.user request-IsAcceptable.normalized
        true request.provenance start t result
submit_order-Persisted_example =
    submit_order-Persisted default_validator request start start-IsValid outside-NoCollisions
      request-IsAcceptable

submit_order-ok_example :
    (a : IsAcceptable default_validator request start) × Persisted a.run a.user a.normalized true
      request.provenance start placed placed_result
submit_order-ok_example =
    submit_order-ok default_validator request start start-IsValid outside-NoCollisions placed_result
      placed placed_lem

-- Nobody has the identifier of run 12.
abbrev unknown_id : Text
unknown_id = codes "00000000-0000-0000-0000-00000000000c"

submit_order_unknown :
    submit_order default_validator (submission unknown_id bob_id tea) start
    ≡ (raised (run_not_found (text unknown_id)), start)
unfolding submit_order get_open_run get_run find as_uuid of_text remove_all remove_from starts_with
    strip strip_by trim_start trim_end is_space
submit_order_unknown = refl

submit_order-raised_example : start ≡ start
submit_order-raised_example =
    submit_order-raised default_validator (submission unknown_id bob_id tea) start start-IsValid
      outside-NoCollisions (run_not_found (text unknown_id)) start submit_order_unknown

-- Bob reuses his tea in the next run of the channel.
use_last_order-submit_order_example :
    (again : UseLastOrderResult) × (u : Session) × (use_last_order default_validator next_run_id
        bob_id placed
      ≡ (ok again, u))
    × (again.submission.order_text ≡ tea)
unfolding find as_uuid of_text remove_all remove_from starts_with strip strip_by trim_start trim_end
    is_space
use_last_order-submit_order_example =
    use_last_order-submit_order default_validator request start placed placed_result run next_run
      next_run_id start-IsValid outside-NoCollisions placed_lem refl refl refl refl refl

-- Alice cancels her order.
alice-IsCancellable : IsCancellable run_id alice_id start
unfolding find as_uuid of_text remove_all remove_from starts_with strip strip_by trim_start trim_end
    is_space
alice-IsCancellable = record {
  run = run;
  user = alice;
  order = order;
  run_found = refl;
  run_open = refl;
  user_found = refl;
  order_found = refl;
  active = refl;
}

cancel_order-Canceled_example :
    (result : OrderCancellationResult) × (t : Session) × (cancel_order run_id alice_id start
      ≡ (ok result, t))
    × Canceled run_id alice_id start alice-IsCancellable t result
cancel_order-Canceled_example =
    cancel_order-Canceled run_id alice_id start start-IsValid alice-IsCancellable

abbrev gone : Session
gone = (cancel_order run_id alice_id start).1

abbrev gone_result : OrderCancellationResult
gone_result = record { order_id = to_text 20; participant_count = 0 }

gone_lem : cancel_order run_id alice_id start ≡ (ok gone_result, gone)
unfolding cancel_order cancel_row get_open_run get_run get_user get_order count_active_orders count
    find update as_uuid of_text remove_all remove_from starts_with strip strip_by trim_start
    trim_end is_space
gone_lem = refl

cancel_order-cancel_order_example :
    cancel_order run_id alice_id gone ≡ (raised (order_not_found alice_id run_id), gone)
cancel_order-cancel_order_example =
    cancel_order-cancel_order run_id alice_id start start-IsValid gone_result gone gone_lem

cancel_order_unknown :
    cancel_order run_id bob_id start ≡ (raised (order_not_found bob_id run_id), start)
unfolding cancel_order get_open_run get_run get_user get_order find as_uuid of_text remove_all
    remove_from starts_with strip strip_by trim_start trim_end is_space
cancel_order_unknown = refl

cancel_order-raised_example : start ≡ start
cancel_order-raised_example =
    cancel_order-raised run_id bob_id start start-IsValid (order_not_found bob_id run_id) start
      cancel_order_unknown

-- Bob submits, then Alice cancels, then Bob reuses his order.
Reach-IsValid_example :
    IsValid
      (use_last_order default_validator run_id bob_id (cancel_order run_id alice_id placed).1).1
Reach-IsValid_example =
    Reach-IsValid default_validator start
      (use_last_order default_validator run_id bob_id (cancel_order run_id alice_id placed).1).1
      outside-NoCollisions start-IsValid
      (next (next (next here (submit request start)) (cancel run_id alice_id placed))
        (reuse run_id bob_id (cancel_order run_id alice_id placed).1))

validate-ok_example :
    (validate default_validator (codes "  tea ") ≡ ok tea)
    ↔ (tea ≡ strip (codes "  tea ")) × IsOrderText default_validator tea
validate-ok_example = validate-ok default_validator (codes "  tea ") tea

abbrev favourite : UserPreference
favourite = record {
  id = 30;
  user_id = 2;
  channel_id = 7;
  last_order_text = tea;
  last_used_at = none;
  created_at = 3;
  updated_at = 3;
}

abbrev remembered : Session
remembered = record start { preferences = favourite ∷ [] }

remembered-IsValid : IsValid remembered
unfolding find
remembered-IsValid = record {
  orders = start-IsValid.orders;
  preferences = record {
    distinct_ids = (refl, tt);
    distinct_keys = (refl, tt);
    unused = λ n h. ground arith;
  };
  runner_stats = start-IsValid.runner_stats;
}

bob-IsReusable : IsReusable default_validator run_id bob_id remembered
unfolding find as_uuid of_text remove_all remove_from starts_with validate strip strip_by trim_start
    trim_end is_space
bob-IsReusable = record {
  run = run;
  user = bob;
  saved = favourite;
  normalized = tea;
  run_found = refl;
  run_open = refl;
  user_found = refl;
  saved_found = refl;
  text_valid = refl;
}

use_last_order-Reused_example :
    (result : UseLastOrderResult) × (t : Session) × (use_last_order default_validator run_id bob_id
        remembered
      ≡ (ok result, t))
    × Reused default_validator run_id bob_id remembered bob-IsReusable t result
use_last_order-Reused_example =
    use_last_order-Reused default_validator run_id bob_id remembered remembered-IsValid
      outside-NoCollisions bob-IsReusable
