-- ===== src/Schema/Tables.antt =====
-- The constraints of a table: distinct primary keys, a UNIQUE constraint, and no row whose key is
-- a UUID that has not been drawn yet.
use coffee_buddy.Prelude.{
  ℕ, ◌+◌, ◌≤◌, ◌≡◌, ap, ◌∙◌, Bool, false, none, List, [], ◌∷◌, ◌++◌, ◌==◌, arith, ==_iff,
  Bool-cases, inl, inr,
}
use coffee_buddy.Prelude.Rows.{find, update, Distinct, find-append, find-update}
use coffee_buddy.Prelude.Keyed.{row, Distinct-append, Distinct-update}
use coffee_buddy.Schema.{Outside, NoCollisions}

module _ {A : Type 0} (id : A → ℕ) (same : A → A → Bool) (o : Outside) where
  abbrev pub has_id : ℕ → A → Bool
  has_id i a = id a == i

  pub record IsTable (drawn : ℕ) (rows : List A) : Type 0 where
    pub distinct_ids : Distinct (row id) rows
    pub distinct_keys : Distinct same rows
    pub unused : (n : ℕ) → drawn ≤ n → find (has_id (o.uuid4 n)) rows ≡ none

  pub IsTable-later :
      {drawn later : ℕ} {rows : List A} → drawn ≤ later → IsTable drawn rows → IsTable later rows
  IsTable-later before t = record {
    distinct_ids = t.distinct_ids;
    distinct_keys = t.distinct_keys;
    unused = λ n le. t.unused n (omega arith);
  }

  pub IsTable-update :
      {drawn : ℕ} {rows : List A} (p : A → Bool) (f : A → A)
      → ((a : A) → id (f a) ≡ id a)
      → ((a b : A) → same (f a) b ≡ same a b)
      → ((a b : A) → same a (f b) ≡ same a b)
      → IsTable drawn rows
      → IsTable drawn (update p f rows)
  IsTable-update {rows = rows} p f keep left right t = record {
    distinct_ids =
        Distinct-update (row id) p f rows (λ a b. rw (keep a)) (λ a b. rw (keep b)) t.distinct_ids;
    distinct_keys = Distinct-update same p f rows left right t.distinct_keys;
    unused =
        λ n le. find-update p (has_id (o.uuid4 n)) f rows (λ a. rw (keep a)) ∙ (rw (t.unused n le));
  }

  drawn_before :
      (drawn n : ℕ) → NoCollisions o → drawn + 1 ≤ n → (o.uuid4 drawn == o.uuid4 n) ≡ false
  drawn_before drawn n differ le = elim (Bool-cases (o.uuid4 drawn == o.uuid4 n)) [
    | inl e ↦ absurd (omega (arith, differ drawn n ((==_iff _ _).0 e)))
    | inr e ↦ e
  ]

  pub IsTable-insert :
      {drawn : ℕ} {rows : List A} (a : A)
      → NoCollisions o
      → ((a b : A) → same a b ≡ same b a)
      → id a ≡ o.uuid4 drawn
      → find (same a) rows ≡ none
      → IsTable drawn rows
      → IsTable (drawn + 1) (rows ++ a ∷ [])
  IsTable-insert {drawn = drawn} {rows = rows} a differ comm fresh absent t = record {
    distinct_ids =
        Distinct-append (row id) rows a (λ b c. ground arith)
          (ap (λ i. find (has_id i) rows) fresh ∙ t.unused drawn (omega arith)) t.distinct_ids;
    distinct_keys = Distinct-append same rows a comm absent t.distinct_keys;
    unused = λ n le.
        find-append (has_id (o.uuid4 n)) rows a (t.unused n (omega arith))
        ∙ (rw fresh (rw (drawn_before drawn n differ le)));
  }
