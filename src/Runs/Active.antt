-- ===== src/Runs/Active.antt =====
-- Those who have an active order in a run, as `_load_active_orders` returns them.
use coffee_buddy.Prelude.{ℕ, ◌≡◌, refl, ap, true, List, [], ◌∷◌, map, All, All-map, is_some}
use coffee_buddy.Prelude.Rows.{find, select, All-select}
use coffee_buddy.Uuid.{text, to_text}
use coffee_buddy.Schema.{Session, Order}
use coffee_buddy.Runs.Service.{user_row, active_in, comes_before}
use coffee_buddy.Runs.Rows.{Row, KeepsRows, All-join_users, select-found, All-everywhere}
use coffee_buddy.Runs.Closable.{active_rows}
use coffee_buddy.Fairness.Candidates.{as_ref}

-- The users of the rows.
abbrev pub orderers : List Row → List ℕ
orderers = map (λ r. r.0.user_id)

-- What holds of the users of the rows holds of those who ordered.
pub All-orderers :
    (P : ℕ → Type 0) (rows : List Row) → All (λ r. P r.0.user_id) rows → All P (orderers rows)
All-orderers P [] h = tt
All-orderers P (r ∷ rs) h = (h.0, All-orderers P rs h.1)

pub as_ref-orderers :
    (rows : List Row) → map (λ r. text (to_text r.0.user_id)) rows ≡ map as_ref (orderers rows)
as_ref-orderers [] = refl
as_ref-orderers (r ∷ rs) = ap (λ xs. as_ref r.0.user_id ∷ xs) (as_ref-orderers rs)

module _ (s : Session) (keeps : KeepsRows s.outside) (run : ℕ) where
  -- What holds of the orders in the table holds of those in the rows.
  pub active_rows-All : (P : Order → Type 0) → All P s.orders → All (λ r. P r.0) (active_rows s run)
  active_rows-All P h =
      keeps (λ r. P r.0) (comes_before s.outside.collates_before) _
        (All-join_users (λ r. P r.0) s.users (select (active_in run) s.orders)
          (All-map (λ o p. All-everywhere (λ u. P o) _ (λ u. p)) _
            (All-select P (active_in run) s.orders (All-map (λ o p is. p) s.orders h))))

  pub active_rows-found :
      All (λ r. is_some (find (user_row r.0.user_id) s.users) ≡ true) (active_rows s run)
  active_rows-found = keeps _ (comes_before s.outside.collates_before) _ (
      All-join_users (λ r. is_some (find (user_row r.0.user_id) s.users) ≡ true) s.users
        (select (active_in run) s.orders)
        (All-everywhere _ _ (λ o. select-found (user_row o.user_id) s.users)))
