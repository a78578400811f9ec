-- ===== src/Runs/Rows.antt =====
-- The rows that `_load_active_orders` returns: the active orders with their users.
use coffee_buddy.Prelude.{
  ◌≡◌, refl, Bool, true, none, List, [], ◌∷◌, arith, All, All-map, All-append, is_some, ==_refl,
  Option-cases, inl, inr,
}
use coffee_buddy.Prelude.Rows.{find, select}
use coffee_buddy.Schema.{Order, User, Outside}
use coffee_buddy.Runs.Service.{with_order, join_users, user_row, order_row}

-- An order and its user.
abbrev pub Row : Type 0
Row = Order × User

-- ORDER BY returns rows of the table it is given: what holds of those holds of what it returns.
abbrev pub KeepsRows : Outside → Type 1
KeepsRows o =
    (P : Row → Type 0) (before : Row → Row → Bool) (xs : List Row)
    → All P xs
    → All P (o.order_by before xs)

module _ (P : Row → Type 0) where
  with_order-All : (o : Order) (us : List User) → All (λ u. P (o, u)) us → All P (with_order o us)
  with_order-All o [] h = tt
  with_order-All o (u ∷ us) h = (h.0, with_order-All o us h.1)

  -- What holds of each order and each of its users holds of each row.
  pub All-join_users :
      (users : List User) (os : List Order)
      → All (λ o. All (λ u. P (o, u)) (select (user_row o.user_id) users)) os
      → All P (join_users users os)
  unfolding join_users
  All-join_users users [] h = tt
  All-join_users users (o ∷ os) h =
      All-append P (with_order o (select (user_row o.user_id) users)) (join_users users os)
        (with_order-All o (select (user_row o.user_id) users) h.0) (All-join_users users os h.1)

module _ {A : Type 0} where
  select-none : (p : A → Bool) (xs : List A) → find p xs ≡ none → select p xs ≡ []
  unfolding find select
  select-none p [] h = refl
  select-none p (x ∷ xs) h = ground (arith, select-none p xs)

  always : (P : Type 0) (xs : List A) → P → All (λ x. P) xs
  always P [] h = tt
  always P (x ∷ xs) h = (h, always P xs h)

  -- A selected row can be found.
  pub select-found :
      (p : A → Bool) (xs : List A) → All (λ x. is_some (find p xs) ≡ true) (select p xs)
  select-found p xs = elim (Option-cases (find p xs)) [
    | inl missing ↦ rw (select-none p xs missing) tt
    | inr (a, found) ↦ always _ (select p xs) (rw found)
  ]

  pub All-everywhere : (P : A → Type 0) (xs : List A) → ((x : A) → P x) → All P xs
  All-everywhere P [] h = tt
  All-everywhere P (x ∷ xs) h = (h x, All-everywhere P xs h)

-- Every row of a table can be found by its key.
pub order_row-found : (os : List Order) → All (λ o. is_some (find (order_row o) os) ≡ true) os
unfolding find
order_row-found [] = tt
order_row-found (o ∷ os) =
    (rw (==_refl o.id), All-map (λ p h. ground (arith, h)) os (order_row-found os))
