-- ===== src/Prelude/Rows.antt =====
-- A database table as the list of its rows, in the order in which the database returns them.
-- `find` is a SELECT of one row, `select` a SELECT of all, `update` an UPDATE, `discard` a DELETE.
use Prim.Native.Nat.{ℕ, ◌+◌}
use mathlib.Core.Path.{◌≡◌, refl, sym, ◌∙◌, subst}
use mathlib.Core.Option.{some-injective}
use mathlib.Core.Bool.{true≢false}
use mathlib.Core.Logic.{inl, inr}
use coffee_buddy.Prelude.Tests.{Bool-cases}
use mathlib.Core.Bool.{Bool, true, false}
use mathlib.Core.Option.{Option, none, some}
use mathlib.Core.List.{List, [], ◌∷◌, ◌++◌}
use native.Mathlib.Omega.{arith}
use coffee_buddy.Prelude.Tests.{if◌then◌else◌, count_of}
use coffee_buddy.Prelude.Lists.{length, All}

module _ {ℓ} {A : Type ℓ} where
  unfoldable pub find : (A → Bool) → List A → Option A
  find p [] = none
  find p (x ∷ xs) = if p x then some x else find p xs

  unfoldable pub select : (A → Bool) → List A → List A
  select p [] = []
  select p (x ∷ xs) = let rest = select p xs in if p x then x ∷ rest else rest

  unfoldable pub discard : (A → Bool) → List A → List A
  discard p [] = []
  discard p (x ∷ xs) = let rest = discard p xs in if p x then rest else x ∷ rest

  unfoldable pub update : (A → Bool) → (A → A) → List A → List A
  update p f [] = []
  update p f (x ∷ xs) = (if p x then f x else x) ∷ update p f xs

  unfoldable pub count : (A → Bool) → List A → ℕ
  count p [] = 0
  count p (x ∷ xs) = count_of (p x) + count p xs

  -- No two rows are the same by the test: a UNIQUE constraint.
  abbrev pub Distinct : (A → A → Bool) → List A → Type ℓ
  Distinct same [] = Unit
  Distinct same (x ∷ xs) = (find (same x) xs ≡ none) × Distinct same xs

module _ {ℓ} {A : Type ℓ} where
  pub find-sat : (p : A → Bool) (xs : List A) {a : A} → find p xs ≡ some a → p a ≡ true
  unfolding find
  find-sat p [] h = cc
  find-sat p (x ∷ xs) {a} h = ground (arith, find-sat p xs {a = a})

  pub find-append :
      (p : A → Bool) (xs : List A) (x : A)
      → find p xs ≡ none
      → find p (xs ++ x ∷ []) ≡ (if p x then some x else none)
  unfolding find
  find-append p [] x h = refl
  find-append p (y ∷ xs) x h = ground (arith, find-append p xs x)

  pub find-append_some :
      (p : A → Bool) (xs : List A) (x : A) {a : A}
      → find p xs ≡ some a
      → find p (xs ++ x ∷ []) ≡ some a
  unfolding find
  find-append_some p [] x h = cc
  find-append_some p (y ∷ xs) x {a} h = ground (arith, find-append_some p xs x {a = a})

  pub find-append_false :
      (p : A → Bool) (xs : List A) (x : A) → p x ≡ false → find p (xs ++ x ∷ []) ≡ find p xs
  unfolding find
  find-append_false p [] x h = rw h
  find-append_false p (y ∷ xs) x h = ground (arith, find-append_false p xs x h)

  -- An update that leaves the test alone, and the row that it is true of.
  pub find-update :
      (p q : A → Bool) (f : A → A) (xs : List A)
      → ((x : A) → q (f x) ≡ q x)
      → find q (update p f xs)
        ≡ elim (find q xs) [ none ↦ none | some a ↦ some (if p a then f a else a) ]
  unfolding find update
  find-update p q f [] keep = refl
  find-update p q f (x ∷ xs) keep = ground (arith, keep x, find-update p q f xs keep)

  pub count-append :
      (p : A → Bool) (xs : List A) (x : A) → count p (xs ++ x ∷ []) ≡ count p xs + count_of (p x)
  unfolding count
  count-append p [] x = omega arith
  count-append p (y ∷ xs) x = omega (arith, count-append p xs x)

  pub length-select : (p : A → Bool) (xs : List A) → length (select p xs) ≡ count p xs
  unfolding select count
  length-select p [] = refl
  length-select p (x ∷ xs) = ground (arith, length-select p xs)

  -- The rows that a DELETE removes and those that it keeps make up the table.
  pub length-discard : (p : A → Bool) (xs : List A) → length (discard p xs) + count p xs ≡ length xs
  unfolding discard count
  length-discard p [] = omega arith
  length-discard p (x ∷ xs) = ground (arith, length-discard p xs)

  pub count-discard_self : (p : A → Bool) (xs : List A) → count p (discard p xs) ≡ 0
  unfolding discard count
  count-discard_self p [] = refl
  count-discard_self p (x ∷ xs) = ground (arith, count-discard_self p xs)

  -- A DELETE leaves alone what it does not select.
  pub select-discard :
      (p q : A → Bool) (xs : List A)
      → ((x : A) → q x ≡ true → p x ≡ false)
      → select q (discard p xs) ≡ select q xs
  unfolding discard select
  select-discard p q [] apart = refl
  select-discard p q (x ∷ xs) apart = ground (arith, apart x, select-discard p q xs apart)

module _ {ℓ κ} {A : Type ℓ} (P : A → Type κ) where
  pub All-select :
      (p : A → Bool) (xs : List A) → All (λ x. p x ≡ true → P x) xs → All P (select p xs)
  unfolding select
  All-select p [] h = tt
  All-select p (x ∷ xs) h = kept (p x) (All-select p xs h.1) refl
    where
      kept :
          (b : Bool)
          → All P (select p xs)
          → p x ≡ b
          → All P (if b then x ∷ select p xs else select p xs)
      kept true rest e = (h.0 e, rest)
      kept false rest e = rest

  -- What holds of all the selected rows holds of each row that the test lets through.
  pub All-of-select :
      (p : A → Bool) (xs : List A) → All P (select p xs) → All (λ x. p x ≡ true → P x) xs
  unfolding select
  All-of-select p [] h = tt
  All-of-select p (x ∷ xs) h = split (p x) refl h (All-of-select p xs)
    where
      split :
          (b : Bool)
          → p x ≡ b
          → All P (if b then x ∷ select p xs else select p xs)
          → (All P (select p xs) → All (λ y. p y ≡ true → P y) xs)
          → (p x ≡ true → P x) × All (λ y. p y ≡ true → P y) xs
      split true e k rec = (λ _. k.0, rec k.1)
      split false e k rec = (λ e'. absurd (true≢false (sym e' ∙ e)), rec k)

  pub All-find : (p : A → Bool) (xs : List A) {a : A} → All P xs → find p xs ≡ some a → P a
  unfolding find
  All-find p [] h e = absurd (cc)
  All-find p (x ∷ xs) {a} h e = elim (Bool-cases (p x)) [
    | inl is ↦ subst P (some-injective x a (rw is at e)) h.0
    | inr is_not ↦ All-find p xs h.1 (rw is_not at e)
  ]
