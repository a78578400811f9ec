-- ===== src/Orders/Persist.antt =====
-- What `_persist_order` does: the order is written, and remembered if it is confirmed.
use mathlib.Core.Path.{subst}
use coffee_buddy.Prelude.{
  ℕ, ◌+◌, ◌≤◌, ◌≡◌, refl, sym, ap, ◌∙◌, Bool, true, false, some, ◌==◌, arith, count_of,
}
use coffee_buddy.Prelude.Rows.{find, count}
use coffee_buddy.Effects.{ok}
use coffee_buddy.Text.{Text}
use coffee_buddy.Uuid.{uuid, to_text, as_uuid}
use coffee_buddy.Schema.{Session, Run, User, Order, OrderProvenance, UserPreference, NoCollisions}
use coffee_buddy.Schema.Tables.{IsTable-later}
use coffee_buddy.Schema.Valid.{IsValid}
use coffee_buddy.Preferences.{preference_of}
use coffee_buddy.Preferences.Save.{set_preference_lem}
use coffee_buddy.Orders.Models.{value_error, OrderSubmissionResult}
use coffee_buddy.Orders.Repository.{order_of, active_in, upsert_order, count_active_orders}
use coffee_buddy.Orders.Service.{persist_order, remember}
use coffee_buddy.Orders.Upsert.{IsWritten, Upserted, upsert_order_lem, has_active}

-- The saved orders after a submission: rewritten for this user and channel if it is confirmed.
abbrev pub Remembers : Bool → (user channel : ℕ) → Text → Session → Session → Type 0
Remembers true user channel order_text s t =
    (p : UserPreference) × (find (preference_of user channel) t.preferences ≡ some p)
    × (p.last_order_text ≡ order_text)
    × ((u c : ℕ)
        → preference_of u c p ≡ false
        → find (preference_of u c) t.preferences ≡ find (preference_of u c) s.preferences)
Remembers false user channel order_text s t = t.preferences ≡ s.preferences

-- What `remember` does to a valid session.
record Remembered (confirm : Bool) (user channel : ℕ) (order_text : Text) (s t : Session)
    : Type 0 where
  remembers : Remembers confirm user channel order_text s t
  valid : IsValid t
  drawn : s.uuids_drawn ≤ t.uuids_drawn
  rest : t ≡ record s {
    clock_reads = t.clock_reads;
    uuids_drawn = t.uuids_drawn;
    preferences = t.preferences;
  }

Remembers-from :
    (confirm : Bool) (user channel : ℕ) (order_text : Text) (s m t : Session)
    → m.preferences ≡ s.preferences
    → Remembers confirm user channel order_text m t
    → Remembers confirm user channel order_text s t
Remembers-from true user channel order_text s m t same h =
    (h.0, h.1, h.2, λ u c out. h.3 u c out ∙ ap (find (preference_of u c)) same)
Remembers-from false user channel order_text s m t same h = h ∙ same

remember_lem :
    (confirm : Bool) (user channel : ℕ) (order_text : Text) (s : Session)
    → IsValid s
    → NoCollisions s.outside
    → (t : Session) × (remember confirm user channel order_text s ≡ (ok confirm, t))
      × Remembered confirm user channel order_text s t
remember_lem true user channel order_text s valid differ =
    let (p, t, e, saved) = set_preference_lem user channel order_text value_error s valid differ in
    (
      t,
      rw e,
      record {
        remembers = (p, saved.found, saved.text, saved.others);
        valid = subst IsValid (sym saved.rest) (record {
          orders = IsTable-later _ _ _ saved.drawn valid.orders;
          preferences = saved.valid;
          runner_stats = IsTable-later _ _ _ saved.drawn valid.runner_stats;
        });
        drawn = saved.drawn;
        rest = saved.rest;
      },
    )
remember_lem false user channel order_text s valid differ =
    (s, refl, record { remembers = refl; valid = valid; drawn = omega arith; rest = refl })

module _ (run : Run) (user : User) (order_text : Text) (confirm : Bool)
    (provenance : OrderProvenance) where
  -- What a submission that returns has done.
  pub record Persisted (s t : Session) (result : OrderSubmissionResult) : Type 0 where
    pub order : Order
    pub written : IsWritten run.id user.id order_text confirm provenance order
    pub found : find (order_of run.id user.id) t.orders ≡ some order
    pub others :
        (r u : ℕ)
        → order_of r u order ≡ false
        → find (order_of r u) t.orders ≡ find (order_of r u) s.orders
    pub counted :
        count (active_in run.id) t.orders
          + count_of (has_active (find (order_of run.id user.id) s.orders))
        ≡ count (active_in run.id) s.orders + 1
    pub other_runs :
        (r : ℕ)
        → (run.id == r) ≡ false
        → count (active_in r) t.orders ≡ count (active_in r) s.orders
    pub order_id : result.order_id ≡ to_text order.id
    pub participants : result.participant_count ≡ count (active_in run.id) t.orders
    pub text : result.order_text ≡ order_text
    pub from : result.provenance ≡ provenance
    pub updated : result.preference_updated ≡ confirm
    pub remembers : Remembers confirm user.id run.channel_id order_text s t
    pub valid : IsValid t
    pub drawn : s.uuids_drawn ≤ t.uuids_drawn
    pub rest : t ≡ record s {
      clock_reads = t.clock_reads;
      uuids_drawn = t.uuids_drawn;
      orders = t.orders;
      preferences = t.preferences;
    }

  -- The state after `upsert_order` is valid.
  Upserted-IsValid :
      (s m : Session) (o : Order)
      → IsValid s
      → Upserted run.id user.id order_text confirm provenance s m o
      → IsValid m
  Upserted-IsValid s m o valid up = subst IsValid (sym up.rest) (record {
    orders = up.valid;
    preferences = IsTable-later _ _ _ up.drawn valid.preferences;
    runner_stats = IsTable-later _ _ _ up.drawn valid.runner_stats;
  })

  abbrev returned : Session → Order → OrderSubmissionResult
  returned t o = record {
    order_id = to_text o.id;
    participant_count = count (active_in run.id) t.orders;
    order_text = o.order_text;
    provenance = provenance;
    preference_updated = confirm;
  }

  module _ (s m t : Session) (o : Order)
      (up : Upserted run.id user.id order_text confirm provenance s m o)
      (re : Remembered confirm user.id run.channel_id order_text m t) where
    orders_t : t.orders ≡ m.orders
    orders_t = ap (λ x. x.orders) re.rest

    persist_order-returned :
        upsert_order (uuid run.id) (uuid user.id) order_text confirm provenance s ≡ (ok o, m)
        → remember confirm user.id run.channel_id order_text m ≡ (ok confirm, t)
        → persist_order run user order_text confirm provenance s ≡ (ok (returned t o), t)
    unfolding persist_order count_active_orders as_uuid
    persist_order-returned e f = rw (e, up.written.2, f)

    returned-Persisted : Persisted s t (returned t o)
    returned-Persisted = record {
      order = o;
      written = up.written;
      found = rw orders_t up.found;
      others = rw orders_t up.others;
      counted = rw orders_t up.counted;
      other_runs = rw orders_t up.other_runs;
      order_id = refl;
      participants = refl;
      text = up.written.2;
      from = refl;
      updated = refl;
      remembers =
          Remembers-from confirm user.id run.channel_id order_text s m t
            (ap (λ x. x.preferences) up.rest) re.remembers;
      valid = re.valid;
      drawn = omega (arith, up.drawn, re.drawn);
      rest =
          re.rest
          ∙ ap
              (λ (x : Session). record x {
                clock_reads = t.clock_reads;
                uuids_drawn = t.uuids_drawn;
                preferences = t.preferences;
              })
              up.rest
          ∙ ap
              (λ x. record s {
                clock_reads = t.clock_reads;
                uuids_drawn = t.uuids_drawn;
                orders = x;
                preferences = t.preferences;
              })
              (sym orders_t);
    }

  -- The call returns, whatever the tables hold.
  pub persist_order_lem :
      (s : Session)
      → IsValid s
      → NoCollisions s.outside
      → (result : OrderSubmissionResult) × (t : Session) × (persist_order run user order_text
            confirm provenance s
          ≡ (ok result, t))
        × Persisted s t result
  persist_order_lem s valid differ =
      let (o, m, e, up) =
        upsert_order_lem run.id user.id order_text confirm provenance s valid differ in
      let (t, f, re) =
        remember_lem confirm user.id run.channel_id order_text m (Upserted-IsValid s m o valid up)
          (subst NoCollisions (sym (ap (λ x. x.outside) up.rest)) differ) in
      (returned t o, t, persist_order-returned s m t o up re e f, returned-Persisted s m t o up re)
