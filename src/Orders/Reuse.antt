-- ===== src/Orders/Reuse.antt =====
-- `OrderService.use_last_order`: the saved order of the channel is submitted again.
use coffee_buddy.Prelude.{
  ◌+◌, ◌≡◌, refl, ap, ◌∙◌, true, some, ◌⊎◌, inl, inr, arith, Option-cases, if◌then◌else◌,
}
use coffee_buddy.Prelude.Rows.{find, update, find-update}
use coffee_buddy.Effects.{ok, raised}
use coffee_buddy.Text.{Text}
use coffee_buddy.Text.Strip.{strip_idem}
use coffee_buddy.Uuid.{text, as_uuid-uuid, to_text}
use coffee_buddy.Schema.{Session, Run, User, UserPreference, open_, preference, NoCollisions}
use coffee_buddy.Schema.Tables.{IsTable-update}
use coffee_buddy.Schema.Valid.{IsValid, same_preference}
use coffee_buddy.Preferences.{preference_of, preference_row, get_preference, mark_used}
use coffee_buddy.Orders.Models.{
  OrderError, preference_not_found, OrderSubmissionResult, UseLastOrderResult, OrderValidator,
  validate,
}
use coffee_buddy.Orders.Service.{use_last_order, persist_order}
use coffee_buddy.Orders.Lookup.{
  run_at, user_at, get_open_run_cases, get_user_cases, get_open_run-found, get_user-found,
  validate_cases,
}
use coffee_buddy.Orders.Persist.{Persisted, persist_order_lem}

-- What a text that the validator returned is worth: it is accepted again, unchanged.
pub validate_idem : (v : OrderValidator) (t n : Text) → validate v t ≡ ok n → validate v n ≡ ok n
unfolding validate
validate_idem v t n h = ground (arith, strip_idem t)

-- What reusing an order wants.
pub record IsReusable (v : OrderValidator) (run_id user_id : Text) (s : Session) : Type 0 where
  pub run : Run
  pub user : User
  pub saved : UserPreference
  pub normalized : Text
  pub run_found : run_at s (text run_id) ≡ some run
  pub run_open : run.status ≡ open_
  pub user_found : user_at s (text user_id) ≡ some user
  pub saved_found : find (preference_of user.id run.channel_id) s.preferences ≡ some saved
  pub text_valid : validate v saved.last_order_text ≡ ok normalized

module _ (v : OrderValidator) (run_id user_id : Text) (s : Session) where
  pub use_last_order_cases :
      ((e : OrderError) × (use_last_order v run_id user_id s ≡ (raised e, s)))
      ⊎ IsReusable v run_id user_id s
  unfolding use_last_order get_preference
  use_last_order_cases = elim (get_open_run_cases (text run_id) s) [
    | inl (e, h) ↦ inl (e, rw h)
    | inr (run, h, at, op) ↦ elim (get_user_cases (text user_id) s) [
      | inl (e, k) ↦ inl (e, rw (h, k))
      | inr (user, k, found) ↦
          elim (Option-cases (find (preference_of user.id run.channel_id) s.preferences)) [
            | inl missing ↦ inl (
              preference_not_found user_id,
              rw (h, k, as_uuid-uuid user.id, as_uuid-uuid run.channel_id, missing),
            )
            | inr (saved, there) ↦ elim (validate_cases v saved.last_order_text) [
              | inl (e, l) ↦
                  inl (e, rw (h, k, as_uuid-uuid user.id, as_uuid-uuid run.channel_id, there, l))
              | inr (n, l) ↦ inr (record {
                run = run;
                user = user;
                saved = saved;
                normalized = n;
                run_found = at;
                run_open = op;
                user_found = found;
                saved_found = there;
                text_valid = l;
              })
            ]
          ]
    ]
  ]

  -- The session in which the saved order is marked as used.
  abbrev marked : UserPreference → Session → Session
  marked saved t =
      let time = t.outside.clock t.clock_reads in
      record t {
        clock_reads = t.clock_reads + 1;
        preferences =
            update (preference_row saved)
              (λ p. record p { last_used_at = some time; updated_at = time }) t.preferences;
      }

  use_last_order-reusable :
      (r : IsReusable v run_id user_id s) (result : OrderSubmissionResult) (t : Session)
      → persist_order r.run r.user r.normalized true preference s ≡ (ok result, t)
      → use_last_order v run_id user_id s ≡ (
        ok (record { preference_id = to_text r.saved.id; submission = result }),
        marked r.saved t,
      )
  unfolding use_last_order get_preference mark_used
  use_last_order-reusable r result t h = rw (
    get_open_run-found (text run_id) s r.run r.run_found r.run_open,
    get_user-found (text user_id) s r.user r.user_found,
    as_uuid-uuid r.user.id,
    as_uuid-uuid r.run.channel_id,
    r.saved_found,
    r.text_valid,
    h,
  )

  -- What a reuse that returns has done: `m` is the session after the submission.
  pub record Reused (r : IsReusable v run_id user_id s) (t : Session) (result : UseLastOrderResult)
      : Type 0 where
    pub m : Session
    pub persisted : Persisted r.run r.user r.normalized true preference s m result.submission
    pub orders : t.orders ≡ m.orders
    pub outside : t.outside ≡ s.outside
    pub saved : UserPreference
    pub saved_found : find (preference_of r.user.id r.run.channel_id) t.preferences ≡ some saved
    pub saved_text : saved.last_order_text ≡ r.normalized
    pub preference_id : result.preference_id ≡ to_text r.saved.id
    pub valid : IsValid t

  -- Marking a row as used leaves every text.
  marked-text :
      (r : IsReusable v run_id user_id s) (m : Session) (result : OrderSubmissionResult)
      → Persisted r.run r.user r.normalized true preference s m result
      → (p : UserPreference) × (find
            (preference_of r.user.id r.run.channel_id)
            (marked r.saved m).preferences
          ≡ some p)
        × (p.last_order_text ≡ r.normalized)
  marked-text r m result persisted =
      let (p, found, text_p, _) = persisted.remembers in
      let used = λ (q : UserPreference). record q {
        last_used_at = some (m.outside.clock m.clock_reads);
        updated_at = m.outside.clock m.clock_reads;
      } in
      (
        if preference_row r.saved p then used p else p,
        find-update (preference_row r.saved) (preference_of r.user.id r.run.channel_id) used
              m.preferences (λ q. refl)
            ∙ (rw found),
        ground (arith, text_p),
      )

  -- In a session that keeps the constraints of its tables, with a `uuid4()` that does not repeat
  -- itself: reusing an order that is saved and still acceptable returns: the order of the run and the user
  -- is the saved text, confirmed, with provenance `preference`.
  pub use_last_order-Reused :
      IsValid s
      → NoCollisions s.outside
      → (r : IsReusable v run_id user_id s)
      → (result : UseLastOrderResult) × (t : Session) × (use_last_order v run_id user_id s
          ≡ (ok result, t))
        × Reused r t result
  use_last_order-Reused valid differ r =
      let (result, m, e, p) =
        persist_order_lem r.run r.user r.normalized true preference s valid differ in
      let (q, found, text_q) = marked-text r m result p in
      (
        record { preference_id = to_text r.saved.id; submission = result },
        marked r.saved m,
        use_last_order-reusable r result m e,
        record {
          m = m;
          persisted = p;
          orders = refl;
          outside = ap (λ x. x.outside) p.rest;
          saved = q;
          saved_found = found;
          saved_text = text_q;
          preference_id = refl;
          valid = record {
            orders = p.valid.orders;
            preferences =
                IsTable-update _ same_preference m.outside (preference_row r.saved) _ (λ x. refl)
                  (λ x y. refl) (λ x y. refl) p.valid.preferences;
            runner_stats = p.valid.runner_stats;
          };
        },
      )

  pub use_last_order-IsValid :
      IsValid s → NoCollisions s.outside → IsValid (use_last_order v run_id user_id s).1
  use_last_order-IsValid valid differ = elim use_last_order_cases [
    | inl (e, h) ↦ rw h valid
    | inr r ↦ let (result, t, k, reused) = use_last_order-Reused valid differ r in rw k reused.valid
  ]

  pub outside-use_last_order :
      IsValid s → NoCollisions s.outside → (use_last_order v run_id user_id s).1.outside ≡ s.outside
  outside-use_last_order valid differ = elim use_last_order_cases [
    | inl (e, h) ↦ rw h
    | inr r ↦
        let (result, t, k, reused) = use_last_order-Reused valid differ r in rw k reused.outside
  ]
