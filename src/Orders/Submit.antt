-- ===== src/Orders/Submit.antt =====
-- `OrderService.submit_order`: when it returns, what it has done, and what a failure leaves.
use mathlib.Core.Path.{subst₂}
use coffee_buddy.Prelude.{◌≡◌, ap, ◌∙◌, some, ◌⊎◌, inl, inr}
use coffee_buddy.Effects.{ok, raised}
use coffee_buddy.Text.{Text}
use coffee_buddy.Uuid.{text}
use coffee_buddy.Schema.{Session, Run, User, open_, NoCollisions}
use coffee_buddy.Schema.Valid.{IsValid}
use coffee_buddy.Orders.Models.{
  OrderError, OrderSubmissionRequest, OrderSubmissionResult, OrderValidator, validate,
}
use coffee_buddy.Orders.Service.{submit_order, persist_order}
use coffee_buddy.Orders.Lookup.{
  run_at, user_at, get_open_run_cases, get_user_cases, get_open_run-found, get_user-found,
  validate_cases,
}
use coffee_buddy.Orders.Persist.{Persisted, persist_order_lem}

-- What the service wants of a request: an open run, a known user and an acceptable text.
pub record IsAcceptable (v : OrderValidator) (req : OrderSubmissionRequest) (s : Session)
    : Type 0 where
  pub run : Run
  pub user : User
  pub normalized : Text
  pub run_found : run_at s (text req.run_id) ≡ some run
  pub run_open : run.status ≡ open_
  pub user_found : user_at s (text req.user_id) ≡ some user
  pub text_valid : validate v req.order_text ≡ ok normalized

module _ (v : OrderValidator) (req : OrderSubmissionRequest) (s : Session) where
  pub submit_order-acceptable :
      (a : IsAcceptable v req s)
      → submit_order v req s ≡ persist_order a.run a.user a.normalized req.confirm req.provenance s
  unfolding submit_order
  submit_order-acceptable a = rw (
    get_open_run-found (text req.run_id) s a.run a.run_found a.run_open,
    get_user-found (text req.user_id) s a.user a.user_found,
    a.text_valid,
  )

  -- Either nothing has happened, or the request was acceptable.
  pub submit_order_cases :
      ((e : OrderError) × (submit_order v req s ≡ (raised e, s))) ⊎ IsAcceptable v req s
  unfolding submit_order
  submit_order_cases = elim (get_open_run_cases (text req.run_id) s) [
    | inl (e, h) ↦ inl (e, rw h)
    | inr (run, h, at, op) ↦ elim (get_user_cases (text req.user_id) s) [
      | inl (e, k) ↦ inl (e, rw (h, k))
      | inr (user, k, found) ↦ elim (validate_cases v req.order_text) [
        | inl (e, l) ↦ inl (e, rw (h, k, l))
        | inr (n, l) ↦ inr (record {
          run = run;
          user = user;
          normalized = n;
          run_found = at;
          run_open = op;
          user_found = found;
          text_valid = l;
        })
      ]
    ]
  ]

  module _ (valid : IsValid s) (differ : NoCollisions s.outside) where
    -- In a session that keeps the constraints of its tables, with a `uuid4()` that does not repeat
    -- itself: an acceptable request returns, and the session afterwards holds the order: it is the one
    -- order of its run and user, with the stripped text, confirmed as asked and not cancelled; the
    -- orders of other users and runs, and all other tables but the saved orders, are as they were;
    -- the result counts the active orders of the run.
    pub submit_order-Persisted :
        (a : IsAcceptable v req s)
        → (result : OrderSubmissionResult) × (t : Session) × (submit_order v req s ≡ (ok result, t))
          × Persisted a.run a.user a.normalized req.confirm req.provenance s t result
    submit_order-Persisted a =
        let (result, t, e, p) =
          persist_order_lem a.run a.user a.normalized req.confirm req.provenance s valid differ in
        (result, t, submit_order-acceptable a ∙ e, p)

    -- In a session that keeps the constraints of its tables, with a `uuid4()` that does not
    -- repeat itself, a submission that raises leaves the session as it was.
    pub submit_order-raised :
        (e : OrderError) (t : Session) → submit_order v req s ≡ (raised e, t) → t ≡ s
    submit_order-raised e t h = elim submit_order_cases [
      | inl (e', k) ↦ cc
      | inr a ↦ let (result, t', k, p) = submit_order-Persisted a in cc
    ]

    -- A submission keeps the constraints of the tables, whether it returns or raises.
    pub submit_order-IsValid : IsValid (submit_order v req s).1
    submit_order-IsValid = elim submit_order_cases [
      | inl (e, h) ↦ rw h valid
      | inr a ↦ let (result, t, k, p) = submit_order-Persisted a in rw k p.valid
    ]

    -- In a session that keeps the constraints of its tables, with a `uuid4()` that does not
    -- repeat itself, a submission that returns had an acceptable request: an open
    -- run, a known user and an acceptable text. Afterwards the run and the user have one order with
    -- that text, not cancelled; other orders and tables are as they were, but for the saved order.
    pub submit_order-ok :
        (result : OrderSubmissionResult) (t : Session)
        → submit_order v req s ≡ (ok result, t)
        → (a : IsAcceptable v req s) × Persisted a.run a.user a.normalized req.confirm
            req.provenance s t result
    submit_order-ok result t h = elim submit_order_cases [
      | inl (e, k) ↦ absurd (cc)
      | inr a ↦
          let (result', t', k, p) = submit_order-Persisted a in
          let same_result : result' ≡ result = cc in
          let same_session : t' ≡ t = cc in
          (
            a,
            subst₂ (Persisted a.run a.user a.normalized req.confirm req.provenance s) same_session
                same_result p,
          )
    ]

    pub outside-submit_order : (submit_order v req s).1.outside ≡ s.outside
    outside-submit_order = elim submit_order_cases [
      | inl (e, h) ↦ rw h
      | inr a ↦
          let (result, t, k, p) = submit_order-Persisted a in rw k (ap (λ x. x.outside) p.rest)
    ]
