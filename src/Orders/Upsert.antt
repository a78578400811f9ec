-- ===== src/Orders/Upsert.antt =====
-- What `upsert_order` does to the orders, and what it leaves.
use coffee_buddy.Prelude.{
  ℕ, ◌+◌, ◌≤◌, ==_refl, ◌≡◌, refl, ◌∙◌, Bool, true, false, Option, none, some, [], ◌∷◌, ◌++◌, ◌==◌,
  arith, count_of, inl, inr, Option-cases,
}
use coffee_buddy.Prelude.Rows.{
  find, count, update, find-sat, find-append, find-append_false, count-append,
}
use coffee_buddy.Prelude.Keyed.{count-update_row, find-update_row, find-update_row_self}
use coffee_buddy.Effects.{ok}
use coffee_buddy.Text.{Text}
use coffee_buddy.Uuid.{uuid, as_uuid}
use coffee_buddy.Schema.{Session, Order, OrderProvenance, NoCollisions}
use coffee_buddy.Schema.Tables.{IsTable, IsTable-update, IsTable-insert}
use coffee_buddy.Schema.Valid.{IsValid, same_owner, same_owner_comm}
use coffee_buddy.Orders.Repository.{
  order_of, order_row, active_in, is_active, write_order, save_order, upsert_order,
}

abbrev pub has_active : Option Order → Bool
has_active none = false
has_active (some o) = is_active o

module _ (run user : ℕ) (order_text : Text) (confirm : Bool) (provenance : OrderProvenance) where
  -- The order that the run and the user have afterwards.
  abbrev pub IsWritten : Order → Type 0
  IsWritten o =
      (o.run_id ≡ run)
      × (o.user_id ≡ user)
      × (o.order_text ≡ order_text)
      × (o.is_final ≡ confirm)
      × (o.provenance ≡ provenance)
      × (o.canceled_at ≡ none)

  -- What an insertion or an update of the order of `run` and `user` does to the session.
  pub record Upserted (s t : Session) (o : Order) : Type 0 where
    pub written : IsWritten o
    pub found : find (order_of run user) t.orders ≡ some o
    pub others :
        (r u : ℕ)
        → order_of r u o ≡ false
        → find (order_of r u) t.orders ≡ find (order_of r u) s.orders
    pub counted :
        count (active_in run) t.orders + count_of (has_active (find (order_of run user) s.orders))
        ≡ count (active_in run) s.orders + 1
    pub other_runs :
        (r : ℕ) → (run == r) ≡ false → count (active_in r) t.orders ≡ count (active_in r) s.orders
    pub valid : IsTable (λ (p : Order). p.id) same_owner s.outside t.uuids_drawn t.orders
    pub drawn : s.uuids_drawn ≤ t.uuids_drawn
    pub rest :
        t ≡ record s { clock_reads = t.clock_reads; uuids_drawn = t.uuids_drawn; orders = t.orders }

  module _ (s : Session) (valid : IsValid s) where
    abbrev time : ℕ
    time = s.outside.clock s.clock_reads

    abbrev inserted : Order
    inserted = record {
      id = s.outside.uuid4 s.uuids_drawn;
      run_id = run;
      user_id = user;
      order_text = order_text;
      is_final = confirm;
      provenance = provenance;
      canceled_at = none;
      created_at = time;
      updated_at = time;
    }

    abbrev after_insert : Session
    after_insert = record s {
      clock_reads = s.clock_reads + 1;
      uuids_drawn = s.uuids_drawn + 1;
      orders = s.orders ++ inserted ∷ [];
    }

    upsert_order-insert :
        find (order_of run user) s.orders ≡ none
        → upsert_order (uuid run) (uuid user) order_text confirm provenance s
          ≡ (ok inserted, after_insert)
    unfolding upsert_order as_uuid
    upsert_order-insert absent = rw (absent, save_order)

    insert-Upserted :
        NoCollisions s.outside
        → find (order_of run user) s.orders ≡ none
        → Upserted s after_insert inserted
    insert-Upserted differ absent = record {
      written = (refl, refl, refl, refl, refl, refl);
      found =
          find-append (order_of run user) s.orders inserted absent
          ∙ (rw (==_refl run, ==_refl user));
      others = λ r u out. find-append_false (order_of r u) s.orders inserted out;
      counted = ground (arith, count-append (active_in run) s.orders inserted);
      other_runs = λ r out. ground (arith, count-append (active_in r) s.orders inserted);
      valid =
          IsTable-insert _ same_owner s.outside inserted differ same_owner_comm refl absent
            valid.orders;
      drawn = omega arith;
      rest = refl;
    }

    abbrev after_update : Order → Session
    after_update o = record s {
      clock_reads = s.clock_reads + 1;
      orders = update (order_row o) (write_order order_text confirm provenance time) s.orders;
    }

    module _ (o : Order) (there : find (order_of run user) s.orders ≡ some o) where
      upsert_order-update :
          upsert_order (uuid run) (uuid user) order_text confirm provenance s
          ≡ (ok (write_order order_text confirm provenance time o), after_update o)
      unfolding upsert_order as_uuid
      upsert_order-update = rw (there, save_order)

      abbrev rewrite : Order → Order
      rewrite = write_order order_text confirm provenance time

      owner : order_of run user o ≡ true
      owner = find-sat (order_of run user) s.orders there

      update-Upserted :
          Upserted s (after_update o) (write_order order_text confirm provenance time o)
      update-Upserted = record {
        written = (ground (arith, owner), ground (arith, owner), refl, refl, refl, refl);
        found = find-update_row_self (λ p. p.id) (order_of run user) _ s.orders o there (λ p. refl);
        others = λ r u out.
            find-update_row (λ p. p.id) (order_of run user) (order_of r u) _ s.orders o
              valid.orders.distinct_ids there out (λ p. refl);
        counted = ground (
          arith,
          owner,
          there,
          count-update_row (λ p. p.id) (order_of run user) (active_in run) rewrite s.orders o
              valid.orders.distinct_ids there,
        );
        other_runs = λ r out. ground (
          arith,
          owner,
          count-update_row (λ p. p.id) (order_of run user) (active_in r) rewrite s.orders o
              valid.orders.distinct_ids there,
        );
        valid =
            IsTable-update _ same_owner s.outside (order_row o) _ (λ p. refl) (λ p q. refl)
              (λ p q. refl) valid.orders;
        drawn = omega arith;
        rest = refl;
      }

  -- The call returns, whether or not there was an order.
  pub upsert_order_lem :
      (s : Session)
      → IsValid s
      → NoCollisions s.outside
      → (o : Order) × (t : Session) × (upsert_order
            (uuid run)
            (uuid user)
            order_text
            confirm
            provenance
            s
          ≡ (ok o, t))
        × Upserted s t o
  upsert_order_lem s valid differ = elim (Option-cases (find (order_of run user) s.orders)) [
    | inl absent ↦ (
      inserted s valid,
      after_insert s valid,
      upsert_order-insert s valid absent,
      insert-Upserted s valid differ absent,
    )
    | inr (o, there) ↦ (
      _,
      after_update s valid o,
      upsert_order-update s valid o there,
      update-Upserted s valid o there,
    )
  ]
