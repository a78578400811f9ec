-- ===== src/Runs/Snapshot.antt =====
-- `_snapshot_orders` makes the orders of the rows final and lists them.
use coffee_buddy.Prelude.{
  ℕ, ◌≡◌, refl, ap, ◌∙◌, Bool, true, some, List, [], ◌∷◌, map, arith, All, All-map, is_some,
  if◌then◌else◌, Option-cases, inl, inr,
}
use coffee_buddy.Prelude.Rows.{find, update, count, find-update, find-sat}
use coffee_buddy.Effects.{ok}
use coffee_buddy.Schema.{Session, Order, Outside}
use coffee_buddy.Schema.Tables.{IsTable, IsTable-update}
use coffee_buddy.Schema.Valid.{same_owner}
use coffee_buddy.Runs.Service.{final, order_row, snapshot_orders, participant_order}
use coffee_buddy.Runs.Rows.{Row}

-- The table has the order, as a final one.
abbrev pub IsFinal : List Order → Order → Type 0
IsFinal os o = (p : Order) × (find (order_row o) os ≡ some p) × (p.is_final ≡ true)

module _ (time : ℕ) where
  -- The orders after the loop.
  unfoldable pub snapshot : List Row → List Order → List Order
  snapshot [] os = os
  snapshot (r ∷ rs) os = snapshot rs (update (order_row r.0) (final time) os)

  pub snapshot_orders_lem :
      (rows : List Row) (s : Session)
      → snapshot_orders time rows s
        ≡ (ok (map participant_order rows), record s { orders = snapshot rows s.orders })
  unfolding snapshot_orders snapshot
  snapshot_orders_lem [] s = refl
  snapshot_orders_lem (r ∷ rs) s =
      rw (
        snapshot_orders_lem rs (record s { orders = update (order_row r.0) (final time) s.orders }))

  count-update-final :
      (p q : Order → Bool) (os : List Order)
      → ((o : Order) → p (final time o) ≡ p o)
      → count p (update q (final time) os) ≡ count p os
  unfolding count update
  count-update-final p q [] keep = refl
  count-update-final p q (o ∷ os) keep = ground (arith, keep o, count-update-final p q os keep)

  -- Nothing is lost that a test finds that looks at neither flag nor time stamp.
  pub count-snapshot :
      (p : Order → Bool) (rows : List Row) (os : List Order)
      → ((o : Order) → p (final time o) ≡ p o)
      → count p (snapshot rows os) ≡ count p os
  unfolding snapshot
  count-snapshot p [] os keep = refl
  count-snapshot p (r ∷ rs) os keep =
      count-snapshot p rs (update (order_row r.0) (final time) os) keep
      ∙ count-update-final p (order_row r.0) os keep

  pub snapshot-IsTable :
      (o : Outside) (drawn : ℕ) (rows : List Row) (os : List Order)
      → IsTable (λ (x : Order). x.id) same_owner o drawn os
      → IsTable (λ (x : Order). x.id) same_owner o drawn (snapshot rows os)
  unfolding snapshot
  snapshot-IsTable o drawn [] os h = h
  snapshot-IsTable o drawn (r ∷ rs) os h =
      snapshot-IsTable o drawn rs (update (order_row r.0) (final time) os) (
        IsTable-update _ same_owner o (order_row r.0) (final time) (λ p. refl) (λ p q. refl)
          (λ p q. refl) h)

  IsFinal-update :
      (o by : Order) (os : List Order)
      → IsFinal os o
      → IsFinal (update (order_row by) (final time) os) o
  IsFinal-update o by os (p, found, is) = (
    if order_row by p then final time p else p,
    find-update (order_row by) (order_row o) (final time) os (λ q. refl) ∙ (rw found),
    ground (arith, is),
  )

  is_some-update :
      (o by : Order) (os : List Order)
      → is_some (find (order_row o) (update (order_row by) (final time) os))
        ≡ is_some (find (order_row o) os)
  is_some-update o by os =
      ap is_some (find-update (order_row by) (order_row o) (final time) os (λ q. refl))
      ∙ (elim (Option-cases (find (order_row o) os)) [ inl e ↦ rw e | inr (a, e) ↦ rw e ])

  IsFinal-update_self :
      (o : Order) (os : List Order)
      → is_some (find (order_row o) os) ≡ true
      → IsFinal (update (order_row o) (final time) os) o
  IsFinal-update_self o os h = elim (Option-cases (find (order_row o) os)) [
    | inl e ↦ absurd (cc)
    | inr (p, e) ↦ (
      if order_row o p then final time p else p,
      find-update (order_row o) (order_row o) (final time) os (λ q. refl) ∙ (rw e),
      ground (arith, find-sat (order_row o) os e),
    )
  ]

  IsFinal-snapshot :
      (o : Order) (rows : List Row) (os : List Order) → IsFinal os o → IsFinal (snapshot rows os) o
  unfolding snapshot
  IsFinal-snapshot o [] os h = h
  IsFinal-snapshot o (r ∷ rs) os h =
      IsFinal-snapshot o rs (update (order_row r.0) (final time) os) (IsFinal-update o r.0 os h)

  -- Every order of the rows is final afterwards.
  pub snapshot-IsFinal :
      (rows : List Row) (os : List Order)
      → All (λ r. is_some (find (order_row r.0) os) ≡ true) rows
      → All (λ r. IsFinal (snapshot rows os) r.0) rows
  unfolding snapshot
  snapshot-IsFinal [] os h = tt
  snapshot-IsFinal (r ∷ rs) os h = (
    IsFinal-snapshot r.0 rs (update (order_row r.0) (final time) os)
        (IsFinal-update_self r.0 os h.0),
    snapshot-IsFinal rs (update (order_row r.0) (final time) os)
        (All-map (λ x found. is_some-update x.0 r.0 os ∙ found) rs h.1),
  )
