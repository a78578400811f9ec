-- ===== src/Effects.antt =====
-- Python methods that change the session and may raise. What was written before a raise stays
-- written, so the state comes back beside the exception too.
use coffee_buddy.Prelude.{◌≡◌, refl, ◌⊎◌, inl, inr, Option, none, some}

pub data Result {ℓ} (E A : Type ℓ) : Type ℓ where
  ok : A → Result E A
  raised : E → Result E A

abbrev pub Exec {ℓ} : Type ℓ → Type ℓ → Type ℓ → Type ℓ
Exec S E A = S → Result E A × S

module _ {ℓ} {S E A : Type ℓ} where
  abbrev pub pure : A → Exec S E A
  pure a s = (ok a, s)

  abbrev pub raise : E → Exec S E A
  raise e s = (raised e, s)

  abbrev pub lift : Result E A → Exec S E A
  lift r s = (r, s)

  abbrev pub gets : (S → A) → Exec S E A
  gets f s = (ok (f s), s)

  abbrev pub some_or : E → Option A → Exec S E A
  some_or e none = raise e
  some_or e (some a) = pure a

abbrev pub modify {ℓ} : {S E : Type ℓ} → (S → S) → Exec S E Unit
modify f s = (ok tt, f s)

module _ {ℓ} {S E A B : Type ℓ} where
  abbrev pub and_then : Result E A → (A → Exec S E B) → Exec S E B
  and_then (ok a) f = f a
  and_then (raised e) f = raise e

  infixl 5 ◌>>=◌ ◌>>◌
  abbrev pub ◌>>=◌ : Exec S E A → (A → Exec S E B) → Exec S E B
  ◌>>=◌ m f s = let (r, s') = m s in and_then r f s'

  abbrev pub ◌>>◌ : Exec S E A → Exec S E B → Exec S E B
  m >> n = m >>= λ _. n

module _ {ℓ} {S E A : Type ℓ} where
  -- A call has raised or returned.
  pub outcome_cases :
      (r : Result E A × S)
      → ((e : E) × (s : S) × (r ≡ (raised e, s))) ⊎ ((a : A) × (s : S) × (r ≡ (ok a, s)))
  outcome_cases (ok a, s) = inr (a, s, refl)
  outcome_cases (raised e, s) = inl (e, s, refl)
