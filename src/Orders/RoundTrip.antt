-- ===== src/Orders/RoundTrip.antt =====
-- From `submit_order` to `use_last_order`.
use mathlib.Core.Path.{subst}
use coffee_buddy.Prelude.{◌≡◌, sym, ap, ◌∙◌, true, some}
use coffee_buddy.Prelude.Rows.{find}
use coffee_buddy.Effects.{ok}
use coffee_buddy.Text.{Text}
use coffee_buddy.Uuid.{text}
use coffee_buddy.Schema.{Session, Run, open_, NoCollisions}
use coffee_buddy.Schema.Valid.{IsValid}
use coffee_buddy.Preferences.{preference_of}
use coffee_buddy.Orders.Models.{
  OrderSubmissionRequest, OrderSubmissionResult, UseLastOrderResult, OrderValidator,
}
use coffee_buddy.Orders.Service.{submit_order, use_last_order}
use coffee_buddy.Orders.Lookup.{run_at, user_at}
use coffee_buddy.Orders.Persist.{Remembers}
use coffee_buddy.Orders.Submit.{submit_order-ok}
use coffee_buddy.Orders.Reuse.{use_last_order-Reused, validate_idem}

module _ (v : OrderValidator) (req : OrderSubmissionRequest) (s t : Session)
    (result : OrderSubmissionResult) (run later : Run) (later_id : Text) where
  -- In a session that keeps the constraints of its tables, with a `uuid4()` that does not repeat
  -- itself: after a confirmed order has been submitted, "use last order" in an open run of the same
  -- channel returns and submits the same text.
  pub use_last_order-submit_order :
      IsValid s
      → NoCollisions s.outside
      → submit_order v req s ≡ (ok result, t)
      → req.confirm ≡ true
      → run_at s (text req.run_id) ≡ some run
      → run_at s (text later_id) ≡ some later
      → later.status ≡ open_
      → later.channel_id ≡ run.channel_id
      → (again : UseLastOrderResult) × (u : Session) × (use_last_order v later_id req.user_id t
          ≡ (ok again, u))
        × (again.submission.order_text ≡ result.order_text)
  use_last_order-submit_order valid differ h confirmed at at_later op channel =
      let (a, p) = submit_order-ok v req s valid differ result t h in
      let (saved, found, text_saved, _) =
        subst (λ b. Remembers b a.user.id a.run.channel_id a.normalized s t) confirmed
          p.remembers in
      let same_channel : a.run.channel_id ≡ later.channel_id = cc (a.run_found, at, channel) in
      let (again, u, k, reused) =
        use_last_order-Reused v later_id req.user_id t p.valid
          (subst NoCollisions (sym (ap (λ x. x.outside) p.rest)) differ)
          (record {
            run = later;
            user = a.user;
            saved = saved;
            normalized = a.normalized;
            run_found = ap (λ x. run_at x (text later_id)) p.rest ∙ at_later;
            run_open = op;
            user_found = ap (λ x. user_at x (text req.user_id)) p.rest ∙ a.user_found;
            saved_found =
                subst (λ c. find (preference_of a.user.id c) t.preferences ≡ some saved)
                  same_channel found;
            text_valid = rw text_saved (validate_idem v req.order_text a.normalized a.text_valid);
          }) in
      (again, u, k, reused.persisted.text ∙ sym p.text)
