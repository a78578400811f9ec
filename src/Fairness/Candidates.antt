-- ===== src/Fairness/Candidates.antt =====
-- The participants without repetition, and the candidates among their statistics.
use mathlib.Core.Path.{subst}
use coffee_buddy.Prelude.{
  ℕ, ◌≡◌, refl, sym, Bool, true, false, ◌||◌, Option, some, List, [], ◌∷◌, map, ◌⊎◌, inl, inr,
  arith, All, All-map, Bool-cases,
}
use coffee_buddy.Prelude.Rows.{select, All-select, All-of-select}
use coffee_buddy.Text.{Text}
use coffee_buddy.Uuid.{Ref, text, to_text}
use coffee_buddy.Schema.{RunnerStat}
use coffee_buddy.Fairness.Selector.{
  Stats, contains, unique_from, get_stat, values, candidates, excludes, is_other, or_all, min_stat,
}
use coffee_buddy.Fairness.Service.{among}
use coffee_buddy.Fairness.Dict.{IsUuid, All-get_stat, text_eq-to_text}

-- `_unique_ordered`, on identifiers.
unfoldable pub unique_users : List ℕ → List ℕ → List ℕ
unique_users seen [] = []
unique_users seen (u ∷ us) =
    let again = unique_users seen us in
    let fresh = u ∷ unique_users (u ∷ seen) us in
    elim (among seen u) [ true ↦ again | false ↦ fresh ]

abbrev pub as_ref : ℕ → Ref
as_ref u = text (to_text u)

contains-map :
    (seen : List ℕ) (u : ℕ)
    → All IsUuid seen
    → IsUuid u
    → contains (map to_text seen) (to_text u) ≡ among seen u
unfolding contains among
contains-map [] u h k = refl
contains-map (x ∷ seen) u h k = ground (arith, text_eq-to_text x u h.0 k, contains-map seen u h.1 k)

pub unique_from-map :
    (seen us : List ℕ)
    → All IsUuid seen
    → All IsUuid us
    → unique_from (map to_text seen) (map as_ref us) ≡ map to_text (unique_users seen us)
unfolding unique_from unique_users
unique_from-map seen [] h k = refl
unique_from-map seen (u ∷ us) h k = elim (Bool-cases (among seen u)) [
  | inl again ↦ ground (arith, contains-map seen u h k.0, unique_from-map seen us h k.1)
  | inr fresh ↦
      ground (arith, contains-map seen u h k.0, unique_from-map (u ∷ seen) us (k.0, h) k.1)
]

pub unique_users-All : (P : ℕ → Type 0) (seen us : List ℕ) → All P us → All P (unique_users seen us)
unfolding unique_users
unique_users-All P seen [] h = tt
unique_users-All P seen (u ∷ us) h = elim (Bool-cases (among seen u)) [
  | inl again ↦ rw (again, unique_users) (unique_users-All P seen us h.1)
  | inr fresh ↦ rw (fresh, unique_users) (h.0, unique_users-All P (u ∷ seen) us h.1)
]

pub among-unique_users :
    (seen us : List ℕ) (u : ℕ)
    → (among (unique_users seen us) u || among seen u) ≡ (among us u || among seen u)
unfolding unique_users among
among-unique_users seen [] u = refl
among-unique_users seen (x ∷ us) u =
    ground (arith, among-unique_users seen us u, among-unique_users (x ∷ seen) us u)

pub All-among_self : (us : List ℕ) → All (λ u. among us u ≡ true) us
unfolding among
All-among_self [] = tt
All-among_self (x ∷ us) = (ground arith, All-map (λ u h. ground arith) us (All-among_self us))

or_all-All :
    (P : RunnerStat → Type 0) (xs all : List RunnerStat)
    → All P xs
    → All P all
    → All P (or_all xs all)
or_all-All P [] all h k = k
or_all-All P (x ∷ xs) all h k = h

or_all-nil : (xs all : List RunnerStat) → or_all xs all ≡ [] → all ≡ []
or_all-nil [] all h = h
or_all-nil (x ∷ xs) all h = absurd (cc)

or_all_self : (xs : List RunnerStat) → or_all xs xs ≡ xs
or_all_self [] = refl
or_all_self (x ∷ xs) = refl

module _ (allow : Bool) (last : Option Text) (d : Stats) where
  abbrev others : List RunnerStat
  others = select (is_other last) (values d)

  candidates_all : excludes allow last d ≡ false → candidates allow last d ≡ values d
  unfolding candidates
  candidates_all e = rw e (or_all_self (values d))

  -- Nobody is left out where nobody else is there.
  candidates_others :
      excludes allow last d ≡ true
      → (k : Text) (st : RunnerStat) → get_stat k d ≡ some st
      → is_other last st ≡ true
      → candidates allow last d ≡ others
  unfolding candidates
  candidates_others e k st there other = rw e (not_empty others refl)
    where
      not_empty : (xs : List RunnerStat) → others ≡ xs → or_all xs (values d) ≡ xs
      not_empty (x ∷ xs) same = refl
      not_empty [] same = absurd (
          All-get_stat (λ y. is_other last y ≡ true → ⊥) k d st
            (All-of-select (λ y. ⊥) (is_other last) (values d) (subst (All (λ y. ⊥)) (sym same) tt))
            there other)

  pub candidates-All :
      (P : RunnerStat → Type 0) → All P (values d) → All P (candidates allow last d)
  unfolding candidates
  candidates-All P h = elim (Bool-cases (excludes allow last d)) [
    | inl e ↦ rw e (
        or_all-All P others (values d)
          (All-select P (is_other last) (values d) (All-map (λ x k _. k) (values d) h)) h)
    | inr e ↦ rw e (or_all-All P (values d) (values d) h h)
  ]

  -- What holds of all candidates holds of everybody who is not left out.
  pub All-candidates :
      (P : RunnerStat → Type 0) (k : Text) (st : RunnerStat)
      → All P (candidates allow last d)
      → get_stat k d ≡ some st
      → (excludes allow last d ≡ false) ⊎ (is_other last st ≡ true)
      → P st
  All-candidates P k st h there (inl e) =
      All-get_stat P k d st (subst (All P) (candidates_all e) h) there
  All-candidates P k st h there (inr other) = elim (Bool-cases (excludes allow last d)) [
    | inr e ↦ All-get_stat P k d st (subst (All P) (candidates_all e) h) there
    | inl e ↦
        All-get_stat (λ y. is_other last y ≡ true → P y) k d st
          (All-of-select P (is_other last) (values d)
            (subst (All P) (candidates_others e k st there other) h))
          there other
  ]

  -- Where somebody else is there, no candidate is the one who is left out.
  pub candidates-is_other :
      excludes allow last d ≡ true
      → (k : Text) (st : RunnerStat) → get_stat k d ≡ some st
      → is_other last st ≡ true
      → All (λ y. is_other last y ≡ true) (candidates allow last d)
  candidates-is_other e k st there other =
      subst (All (λ y. is_other last y ≡ true)) (sym (candidates_others e k st there other))
        (All-select _ (is_other last) (values d) (always (values d)))
    where
      always :
          (xs : List RunnerStat) → All (λ y. is_other last y ≡ true → is_other last y ≡ true) xs
      always [] = tt
      always (x ∷ xs) = (λ h. h, always xs)

  no_values : candidates allow last d ≡ [] → values d ≡ []
  unfolding candidates
  no_values h = elim (Bool-cases (excludes allow last d)) [
    | inl e ↦ or_all-nil others (values d) (rw e at h)
    | inr e ↦ or_all-nil (values d) (values d) (rw e at h)
  ]

  -- There is a least candidate as soon as there is an entry.
  pub min_stat-candidates :
      (k : Text) (st : RunnerStat)
      → get_stat k d ≡ some st
      → (best : RunnerStat) × (min_stat (candidates allow last d) ≡ some best)
  min_stat-candidates k st there = least (candidates allow last d) refl
    where
      least :
          (xs : List RunnerStat)
          → candidates allow last d ≡ xs
          → (best : RunnerStat) × (min_stat xs ≡ some best)
      least (x ∷ xs) same = (_, refl)
      least [] same =
          absurd
            (All-get_stat (λ y. ⊥) k d st (subst (All (λ y. ⊥)) (sym (no_values same)) tt) there)
