-- ===== src/Tests/Sorting.antt =====
-- A database that sorts rows by insertion.
use coffee_buddy.Prelude.{Bool, List, [], ◌∷◌, All, Bool-cases, inl, inr, if◌then◌else◌}
use coffee_buddy.Runs.Rows.{Row}

unfoldable pub insert_row : (Row → Row → Bool) → Row → List Row → List Row
insert_row before x [] = x ∷ []
insert_row before x (y ∷ ys) = if before y x then y ∷ insert_row before x ys else x ∷ y ∷ ys

unfoldable pub sort_rows : (Row → Row → Bool) → List Row → List Row
unfolding insert_row
sort_rows before [] = []
sort_rows before (x ∷ xs) = insert_row before x (sort_rows before xs)

module _ (P : Row → Type 0) (before : Row → Row → Bool) where
  All-insert_row : (x : Row) (ys : List Row) → P x → All P ys → All P (insert_row before x ys)
  unfolding insert_row
  All-insert_row x [] h k = (h, tt)
  All-insert_row x (y ∷ ys) h k = elim (Bool-cases (before y x)) [
    | inl e ↦ rw e (k.0, All-insert_row x ys h k.1)
    | inr e ↦ rw e (h, k)
  ]

  pub All-sort_rows : (xs : List Row) → All P xs → All P (sort_rows before xs)
  unfolding sort_rows
  All-sort_rows [] h = tt
  All-sort_rows (x ∷ xs) h = All-insert_row x (sort_rows before xs) h.0 (All-sort_rows xs h.1)
