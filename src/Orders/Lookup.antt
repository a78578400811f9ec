-- ===== src/Orders/Lookup.antt =====
-- The outcomes of the lookups and of the validator: each changes nothing.
use coffee_buddy.Prelude.{
  false, ◌≡◌, refl, Option, none, some, ◌⊎◌, inl, inr, arith, Option-cases, Bool-cases,
}
use coffee_buddy.Prelude.Rows.{find}
use coffee_buddy.Effects.{Result, ok, raised}
use coffee_buddy.Text.{Text}
use coffee_buddy.Uuid.{Ref, as_uuid}
use coffee_buddy.Schema.{Session, Run, User, open_}
use coffee_buddy.Orders.Models.{
  OrderError, value_error, run_not_found, run_not_open, user_not_found, OrderValidator, validate,
}
use coffee_buddy.Orders.Repository.{run_row, user_row, get_open_run, get_user, is_open}

-- The run that a reference names.
abbrev pub run_at : Session → Ref → Option Run
run_at s ref = elim (as_uuid ref) [ none ↦ none | some id ↦ find (run_row id) s.runs ]

abbrev pub user_at : Session → Ref → Option User
user_at s ref = elim (as_uuid ref) [ none ↦ none | some id ↦ find (user_row id) s.users ]

module _ (ref : Ref) (s : Session) where
  pub get_open_run_cases :
      ((e : OrderError) × (get_open_run ref s ≡ (raised e, s)))
      ⊎ ((run : Run) × (get_open_run ref s ≡ (ok run, s))
          × (run_at s ref ≡ some run)
          × (run.status ≡ open_))
  unfolding get_open_run
  get_open_run_cases = elim (Option-cases (as_uuid ref)) [
    | inl bad ↦ inl (value_error, rw bad)
    | inr (id, e) ↦ elim (Option-cases (find (run_row id) s.runs)) [
      | inl missing ↦ inl (run_not_found ref, rw (e, missing))
      | inr (run, found) ↦ elim (Bool-cases (is_open run.status)) [
        | inl is ↦ inr (run, rw (e, found, is), ground arith, ground arith)
        | inr not_open ↦ inl (run_not_open ref, rw (e, found, not_open))
      ]
    ]
  ]

  pub get_user_cases :
      ((e : OrderError) × (get_user ref s ≡ (raised e, s)))
      ⊎ ((user : User) × (get_user ref s ≡ (ok user, s)) × (user_at s ref ≡ some user))
  unfolding get_user
  get_user_cases = elim (Option-cases (as_uuid ref)) [
    | inl bad ↦ inl (value_error, rw bad)
    | inr (id, e) ↦ elim (Option-cases (find (user_row id) s.users)) [
      | inl missing ↦ inl (user_not_found ref, rw (e, missing))
      | inr (user, found) ↦ inr (user, rw (e, found), ground arith)
    ]
  ]

  pub get_open_run-found :
      (run : Run) → run_at s ref ≡ some run → run.status ≡ open_ → get_open_run ref s ≡ (ok run, s)
  unfolding get_open_run
  get_open_run-found run h o = ground arith

  pub get_open_run-shut :
      (run : Run)
      → run_at s ref ≡ some run
      → is_open run.status ≡ false
      → get_open_run ref s ≡ (raised (run_not_open ref), s)
  unfolding get_open_run
  get_open_run-shut run h shut = ground arith

  pub get_user-found : (user : User) → user_at s ref ≡ some user → get_user ref s ≡ (ok user, s)
  unfolding get_user
  get_user-found user h = ground arith

pub validate_cases :
    (v : OrderValidator) (t : Text)
    → ((e : OrderError) × (validate v t ≡ raised e)) ⊎ ((n : Text) × (validate v t ≡ ok n))
validate_cases v t = outcome (validate v t) refl
  where
    outcome :
        (r : Result OrderError Text)
        → validate v t ≡ r
        → ((e : OrderError) × (validate v t ≡ raised e)) ⊎ ((n : Text) × (validate v t ≡ ok n))
    outcome (raised e) h = inl (e, h)
    outcome (ok n) h = inr (n, h)
