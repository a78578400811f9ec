-- ===== src/Orders/Cancel.antt =====
-- `OrderService.cancel_order`: when it returns, what it has done, and what a failure leaves.
use mathlib.Core.Path.{subst}
use coffee_buddy.Prelude.{
  ℕ, ◌+◌, ◌≡◌, refl, sym, ap, ◌∙◌, false, none, some, ◌⊎◌, inl, inr, arith, Option-cases,
}
use coffee_buddy.Prelude.Rows.{find, count, update, find-sat}
use coffee_buddy.Prelude.Keyed.{count-update_row, find-update_row, find-update_row_self}
use coffee_buddy.Effects.{ok, raised}
use coffee_buddy.Text.{Text}
use coffee_buddy.Uuid.{text, as_uuid, as_uuid-uuid, to_text}
use coffee_buddy.Schema.{Session, Run, User, Order, open_}
use coffee_buddy.Schema.Tables.{IsTable-update}
use coffee_buddy.Schema.Valid.{IsValid, same_owner}
use coffee_buddy.Orders.Models.{OrderError, order_not_found, OrderCancellationResult}
use coffee_buddy.Orders.Repository.{
  order_of, order_row, active_in, close_order, cancel_row, get_order, count_active_orders, user_row,
}
use coffee_buddy.Orders.Service.{cancel_order}
use coffee_buddy.Orders.Lookup.{
  run_at, user_at, get_open_run_cases, get_user_cases, get_open_run-found, get_user-found,
}

-- What a cancellation wants: an open run, a known user and an active order of theirs.
pub record IsCancellable (run_id user_id : Text) (s : Session) : Type 0 where
  pub run : Run
  pub user : User
  pub order : Order
  pub run_found : run_at s (text run_id) ≡ some run
  pub run_open : run.status ≡ open_
  pub user_found : user_at s (text user_id) ≡ some user
  pub order_found : find (order_of run.id user.id) s.orders ≡ some order
  pub active : order.canceled_at ≡ none

user_at-id :
    (s : Session) (user_id : Text) (user : User)
    → user_at s (text user_id) ≡ some user
    → as_uuid (text user_id) ≡ some user.id
user_at-id s user_id user h = elim (Option-cases (as_uuid (text user_id))) [
  | inl e ↦ ground arith
  | inr (id, e) ↦ ground (arith, find-sat (user_row id) s.users {a = user})
]

-- A cancelled order is not found.
cancel_order-gone :
    (run_id user_id : Text) (s : Session) (run : Run) (user : User) (o : Order) {t : ℕ}
    → run_at s (text run_id) ≡ some run
    → run.status ≡ open_
    → user_at s (text user_id) ≡ some user
    → find (order_of run.id user.id) s.orders ≡ some o
    → o.canceled_at ≡ some t
    → cancel_order run_id user_id s ≡ (raised (order_not_found user_id run_id), s)
unfolding cancel_order get_order
cancel_order-gone run_id user_id s run user o at op found there gone = rw (
  get_open_run-found (text run_id) s run at op,
  get_user-found (text user_id) s user found,
  as_uuid-uuid run.id,
  user_at-id s user_id user found,
  there,
  gone,
)

module _ (run_id user_id : Text) (s : Session) where
  abbrev time : ℕ
  time = s.outside.clock s.clock_reads

  abbrev canceled : IsCancellable run_id user_id s → Session
  canceled c = record s {
    clock_reads = s.clock_reads + 1;
    orders = update (order_row c.order) (close_order time) s.orders;
  }

  cancel_order-cancellable :
      (c : IsCancellable run_id user_id s)
      → cancel_order run_id user_id s ≡ (
        ok (record {
          order_id = to_text c.order.id;
          participant_count = count (active_in c.run.id) (canceled c).orders;
        }),
        canceled c,
      )
  unfolding cancel_order get_order count_active_orders cancel_row
  cancel_order-cancellable c =
      rw
        (
          get_open_run-found (text run_id) s c.run c.run_found c.run_open,
          get_user-found (text user_id) s c.user c.user_found,
          user_at-id s user_id c.user c.user_found,
        )
        (unfold as_uuid in rw (c.order_found, c.active))

  -- Either nothing has happened, or the order was there and active.
  pub cancel_order_cases :
      ((e : OrderError) × (cancel_order run_id user_id s ≡ (raised e, s)))
      ⊎ IsCancellable run_id user_id s
  unfolding cancel_order get_order
  cancel_order_cases = elim (get_open_run_cases (text run_id) s) [
    | inl (e, h) ↦ inl (e, rw h)
    | inr (run, h, at, op) ↦ elim (get_user_cases (text user_id) s) [
      | inl (e, k) ↦ inl (e, rw (h, k))
      | inr (user, k, found) ↦ elim (Option-cases (find (order_of run.id user.id) s.orders)) [
        | inl missing ↦ inl (
          order_not_found user_id run_id,
          rw (h, k, as_uuid-uuid run.id, user_at-id s user_id user found, missing),
        )
        | inr (o, there) ↦ elim (Option-cases o.canceled_at) [
          | inr (t, gone) ↦ inl (
            order_not_found user_id run_id,
            cancel_order-gone run_id user_id s run user o at op found there gone,
          )
          | inl active ↦ inr (record {
            run = run;
            user = user;
            order = o;
            run_found = at;
            run_open = op;
            user_found = found;
            order_found = there;
            active = active;
          })
        ]
      ]
    ]
  ]

  -- What a cancellation that returns has done.
  pub record Canceled (c : IsCancellable run_id user_id s) (t : Session)
      (result : OrderCancellationResult) : Type 0 where
    pub found :
        find (order_of c.run.id c.user.id) t.orders
        ≡ some (record c.order { canceled_at = some time; updated_at = time })
    pub others :
        (r u : ℕ)
        → order_of r u c.order ≡ false
        → find (order_of r u) t.orders ≡ find (order_of r u) s.orders
    pub counted : count (active_in c.run.id) t.orders + 1 ≡ count (active_in c.run.id) s.orders
    pub order_id : result.order_id ≡ to_text c.order.id
    pub participants : result.participant_count ≡ count (active_in c.run.id) t.orders
    pub valid : IsValid t
    pub rest : t ≡ record s { clock_reads = t.clock_reads; orders = t.orders }

  module _ (valid : IsValid s) where
    canceled-Canceled :
        (c : IsCancellable run_id user_id s)
        → Canceled c (canceled c) (record {
          order_id = to_text c.order.id;
          participant_count = count (active_in c.run.id) (canceled c).orders;
        })
    canceled-Canceled c = record {
      found =
          find-update_row_self (λ p. p.id) (order_of c.run.id c.user.id) _ s.orders c.order
            c.order_found (λ p. refl);
      others = λ r u out.
          find-update_row (λ p. p.id) (order_of c.run.id c.user.id) (order_of r u) _ s.orders
            c.order valid.orders.distinct_ids c.order_found out (λ p. refl);
      counted = ground (
        arith,
        find-sat (order_of c.run.id c.user.id) s.orders c.order_found,
        c.active,
        count-update_row (λ p. p.id) (order_of c.run.id c.user.id) (active_in c.run.id)
            (close_order time) s.orders c.order valid.orders.distinct_ids c.order_found,
      );
      order_id = refl;
      participants = refl;
      valid = record {
        orders =
            IsTable-update _ same_owner s.outside (order_row c.order) (close_order time) (λ p. refl)
              (λ p q. refl) (λ p q. refl) valid.orders;
        preferences = valid.preferences;
        runner_stats = valid.runner_stats;
      };
      rest = refl;
    }

    -- In a session that keeps the constraints of its tables, a cancellation of an active order
    -- returns: that order, and no other, is cancelled, and the
    -- run has one active order less, which is the count that the result gives. Nothing else
    -- changes.
    pub cancel_order-Canceled :
        (c : IsCancellable run_id user_id s)
        → (result : OrderCancellationResult) × (t : Session) × (cancel_order run_id user_id s
            ≡ (ok result, t))
          × Canceled c t result
    cancel_order-Canceled c = (_, canceled c, cancel_order-cancellable c, canceled-Canceled c)

    -- In a session that keeps the constraints of its tables, a cancellation that raises leaves the session as it was.
    pub cancel_order-raised :
        (e : OrderError) (t : Session) → cancel_order run_id user_id s ≡ (raised e, t) → t ≡ s
    cancel_order-raised e t h = elim cancel_order_cases [
      | inl (e', k) ↦ cc
      | inr c ↦ let k = cancel_order-cancellable c in cc
    ]

    pub cancel_order-IsValid : IsValid (cancel_order run_id user_id s).1
    cancel_order-IsValid = elim cancel_order_cases [
      | inl (e, h) ↦ rw h valid
      | inr c ↦ rw (cancel_order-cancellable c) (canceled-Canceled c).valid
    ]

    -- In a session that keeps the constraints of its tables, cancelling again after a cancellation raises OrderNotFoundError and changes nothing.
    pub cancel_order-cancel_order :
        (result : OrderCancellationResult) (t : Session)
        → cancel_order run_id user_id s ≡ (ok result, t)
        → cancel_order run_id user_id t ≡ (raised (order_not_found user_id run_id), t)
    cancel_order-cancel_order result t h = elim cancel_order_cases [
      | inl (e, k) ↦ cc
      | inr c ↦
          let e : canceled c ≡ t = ap (λ p. p.1) (sym (cancel_order-cancellable c) ∙ h) in
          subst (λ x. cancel_order run_id user_id x ≡ (raised (order_not_found user_id run_id), x))
            e
            (cancel_order-gone run_id user_id (canceled c) c.run c.user (close_order time c.order)
              c.run_found c.run_open c.user_found (canceled-Canceled c).found refl)
    ]

  pub outside-cancel_order : (cancel_order run_id user_id s).1.outside ≡ s.outside
  outside-cancel_order = elim cancel_order_cases [
    | inl (e, h) ↦ rw h
    | inr c ↦ rw (cancel_order-cancellable c)
  ]
