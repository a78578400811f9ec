-- ===== src/Prelude/Keyed.antt =====
-- Tables whose rows have a primary key: an UPDATE or a SELECT through the key meets one row.
use Prim.Native.Nat.{ℕ, ◌+◌}
use mathlib.Core.Path.{◌≡◌, refl, ap, sym, ◌∙◌, fun_ext}
use mathlib.Core.Bool.{Bool, true, false, true≢false}
use mathlib.Core.Logic.{◌⊎◌, inl, inr}
use mathlib.Core.Option.{Option, none, some}
use mathlib.Core.List.{List, [], ◌∷◌, ◌++◌}
use native.Mathlib.Omega.{arith}
use coffee_buddy.Prelude.Tests.{if◌then◌else◌, count_of, ◌==◌, ==_iff, Bool-cases}
use coffee_buddy.Prelude.Lists.{All, All-map₂}
use coffee_buddy.Prelude.Rows.{find, update, count, Distinct, find-sat, find-append, find-update}

module _ {ℓ} {A : Type ℓ} where
  pub update_absent :
      (p : A → Bool) (f : A → A) (xs : List A) → find p xs ≡ none → update p f xs ≡ xs
  unfolding find update
  update_absent p f [] h = refl
  update_absent p f (x ∷ xs) h = ground (arith, update_absent p f xs)

  -- A row that one query finds fails every test that finds nothing.
  pub found-fails :
      (p q : A → Bool) (xs : List A) (a : A) → find p xs ≡ some a → find q xs ≡ none → q a ≡ false
  unfolding find
  found-fails p q [] a h k = cc
  found-fails p q (x ∷ xs) a h k = ground (arith, found-fails p q xs a)

  pub Distinct-append :
      (same : A → A → Bool) (xs : List A) (x : A)
      → ((a b : A) → same a b ≡ same b a)
      → find (same x) xs ≡ none
      → Distinct same xs
      → Distinct same (xs ++ x ∷ [])
  unfolding find
  Distinct-append same [] x comm h d = (refl, tt)
  Distinct-append same (y ∷ xs) x comm h d = (
    ground (arith, comm x y, find-append (same y) xs x d.0),
    Distinct-append same xs x comm (ground arith) d.1,
  )

  -- An update that keeps what a UNIQUE constraint compares keeps the constraint.
  pub Distinct-update :
      (same : A → A → Bool) (p : A → Bool) (f : A → A) (xs : List A)
      → ((x y : A) → same (f x) y ≡ same x y)
      → ((x y : A) → same x (f y) ≡ same x y)
      → Distinct same xs
      → Distinct same (update p f xs)
  unfolding find update
  Distinct-update same p f [] l r d = tt
  Distinct-update same p f (x ∷ xs) l r d =
      (head (Bool-cases (p x)), Distinct-update same p f xs l r d.1)
    where
      tail_absent : find (same x) (update p f xs) ≡ none
      tail_absent = find-update p (same x) f xs (r x) ∙ (rw d.0)

      head :
          (p x ≡ true) ⊎ (p x ≡ false) → find (same (if p x then f x else x)) (update p f xs) ≡ none
      head (inl e) = rw (e, fun_ext (l x)) tail_absent
      head (inr e) = rw e tail_absent

  All-find-none : (p : A → Bool) (xs : List A) → find p xs ≡ none → All (λ x. p x ≡ false) xs
  unfolding find
  All-find-none p [] h = tt
  All-find-none p (x ∷ xs) h = (ground arith, All-find-none p xs (ground arith))

  -- Under a UNIQUE constraint every row is the one that a query for its key finds.
  pub find-same :
      (same : A → A → Bool) (xs : List A)
      → ((a : A) → same a a ≡ true)
      → ((a b : A) → same a b ≡ same b a)
      → Distinct same xs
      → All (λ a. find (same a) xs ≡ some a) xs
  unfolding find
  find-same same [] self comm d = tt
  find-same same (x ∷ xs) self comm d = (
    rw (self x),
    All-map₂ {P = λ a. find (same a) xs ≡ some a} {Q = λ a. same x a ≡ false}
        (λ a found other. rw (comm a x ∙ other) found) xs (find-same same xs self comm d.1)
        (All-find-none (same x) xs d.0),
  )

module _ {ℓ} {A : Type ℓ} (key : A → ℕ) where
  abbrev pub row : A → A → Bool
  row a b = key b == key a

  pub count-update_row :
      (p q : A → Bool) (f : A → A) (xs : List A) (a : A)
      → Distinct row xs
      → find p xs ≡ some a
      → count q (update (row a) f xs) + count_of (q a) ≡ count q xs + count_of (q (f a))
  unfolding find update count
  count-update_row p q f [] a d h = cc
  count-update_row p q f (x ∷ xs) a d h = ground (
    arith,
    found-fails p (row x) xs a,
    update_absent (row x) f xs d.0,
    count-update_row p q f xs a d.1,
  )

  -- Two queries that find rows with one key find one row.
  pub found_unique :
      (p q : A → Bool) (xs : List A) (a b : A)
      → Distinct row xs
      → find p xs ≡ some a
      → find q xs ≡ some b
      → key a ≡ key b
      → a ≡ b
  unfolding find
  found_unique p q [] a b d h k e = cc
  found_unique p q (x ∷ xs) a b d h k e =
      ground
        (arith, found-fails p (row x) xs a, found-fails q (row x) xs b, found_unique p q xs a b d.1)

  -- What an update of one row leaves of the other rows.
  pub find-update_row :
      (p q : A → Bool) (f : A → A) (xs : List A) (a : A)
      → Distinct row xs
      → find p xs ≡ some a
      → q a ≡ false
      → ((x : A) → q (f x) ≡ q x)
      → find q (update (row a) f xs) ≡ find q xs
  find-update_row p q f xs a d h k keep =
      rw (find-update (row a) q f xs keep) (other (find q xs) refl)
    where
      other :
          (o : Option A)
          → find q xs ≡ o
          → elim o [ none ↦ none | some b ↦ some (if row a b then f b else b) ] ≡ o
      other none e = refl
      other (some b) e = elim (Bool-cases (row a b)) [
        | inl same ↦
            let eq : a ≡ b =
              found_unique p q xs a b d h e (sym ((==_iff (key b) (key a)).0 same)) in
            absurd (true≢false (sym (find-sat q xs e) ∙ ap q (sym eq) ∙ k))
        | inr differs ↦ rw differs
      ]

  pub find-update_row_self :
      (p : A → Bool) (f : A → A) (xs : List A) (a : A)
      → find p xs ≡ some a
      → ((x : A) → p (f x) ≡ p x)
      → find p (update (row a) f xs) ≡ some (f a)
  unfolding find update
  find-update_row_self p f [] a h keep = cc
  find-update_row_self p f (x ∷ xs) a h keep = ground (arith, keep x, find-update_row_self p f xs a)
