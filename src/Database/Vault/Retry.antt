-- ===== src/Database/Vault/Retry.antt =====
-- How often VaultDbCredentialsProvider reads the secret, and how long it sleeps.
use coffee_buddy.Prelude.{
  ℕ, zero, suc, ◌+◌, ◌*◌, ◌<◌, ◌≡◌, refl, sym, ap, ◌∙◌, ◌⊎◌, inl, inr, Option, none, some, List, [],
  ◌∷◌, ◌++◌, arith,
}
use coffee_buddy.Effects.{ok, raised}
use coffee_buddy.Database.Credentials.{DbCredentials}
use coffee_buddy.Database.Vault.{
  Provider, unable_to_fetch, fetch, attempts, fetch_with_backoff, count_read, sleep,
}
use mathlib.Core.List.{append_assoc, append-nil}
use mathlib.Core.Path.{ap₂}

-- The sleeps after `n` failures, of which `attempt` came before.
abbrev pub sleeps_after : (backoff attempt n : ℕ) → List ℕ
sleeps_after backoff attempt zero = []
sleeps_after backoff attempt (suc n) =
    backoff * (attempt + 1) ∷ sleeps_after backoff (attempt + 1) n

-- What the n-th read from now on gives.
abbrev pub nth : Provider → ℕ → Option DbCredentials
nth p n = fetch (p.read_secret_version (p.reads + n))

-- The first `n` reads fail.
abbrev pub Fail : Provider → ℕ → Type 0
Fail p n = (j : ℕ) → j < n → nth p j ≡ none

-- The provider after so many reads and failures.
abbrev pub after : (reads attempt failures : ℕ) → Provider → Provider
after reads attempt failures p = record p {
  reads = p.reads + reads;
  sleeps = p.sleeps ++ sleeps_after p.backoff attempt failures;
}

-- The attempts from some point on.
abbrev Attempts : (left attempt : ℕ) → Provider → Type 0
Attempts left attempt p =
    ((n : ℕ) × (c : DbCredentials) × (n < left)
      × Fail p n
      × (nth p n ≡ some c)
      × (attempts left attempt p ≡ (ok c, after (suc n) attempt n p)))
    ⊎ (Fail p left
        × (attempts left attempt p ≡ (raised unable_to_fetch, after left attempt left p)))

-- The provider after a read that fails.
abbrev failed : ℕ → Provider → Provider
failed attempt p = sleep (p.backoff * (attempt + 1)) (count_read p)

nth-zero : (p : Provider) → nth p 0 ≡ fetch (p.read_secret_version p.reads)
nth-zero p = ap (λ i. fetch (p.read_secret_version i)) (omega arith)

nth-suc : (p : Provider) (attempt n : ℕ) → nth p (suc n) ≡ nth (failed attempt p) n
nth-suc p attempt n = ap (λ i. fetch (p.read_secret_version i)) (omega arith)

Fail-suc :
    (p : Provider) (attempt n : ℕ)
    → fetch (p.read_secret_version p.reads) ≡ none
    → Fail (failed attempt p) n
    → Fail p (suc n)
Fail-suc p attempt n e h zero k = nth-zero p ∙ e
Fail-suc p attempt n e h (suc j) k = nth-suc p attempt j ∙ h j (omega arith)

after-failed :
    (attempt reads failures : ℕ) (p : Provider)
    → after reads (attempt + 1) failures (failed attempt p)
      ≡ after (suc reads) attempt (suc failures) p
after-failed attempt reads failures p =
    ap₂ (λ r s. record p { reads = r; sleeps = s }) (omega arith)
      (append_assoc p.sleeps (p.backoff * (attempt + 1) ∷ [])
        (sleeps_after p.backoff (attempt + 1) failures))

after_none :
    (reads attempt : ℕ) (p : Provider)
    → record p { reads = p.reads + reads } ≡ after reads attempt 0 p
after_none reads attempt p = rw (append-nil p.sleeps) refl

reads_none : (attempt : ℕ) (p : Provider) → p ≡ after 0 attempt 0 p
reads_none attempt p =
    ap₂ (λ r s. record p { reads = r; sleeps = s }) (omega arith) (sym (append-nil p.sleeps))

attempts-some :
    (left attempt : ℕ) (p : Provider) (c : DbCredentials)
    → fetch (p.read_secret_version p.reads) ≡ some c
    → attempts (suc left) attempt p ≡ (ok c, count_read p)
unfolding attempts
attempts-some left attempt p c e = rw e refl

attempts-none :
    (left attempt : ℕ) (p : Provider)
    → fetch (p.read_secret_version p.reads) ≡ none
    → attempts (suc left) attempt p ≡ attempts left (attempt + 1) (failed attempt p)
unfolding attempts
attempts-none left attempt p e = rw e refl

Attempts-step :
    (left attempt : ℕ) (p : Provider)
    → Attempts left (attempt + 1) (failed attempt p)
    → Attempts (suc left) attempt p
Attempts-step left attempt p later = by_read (fetch (p.read_secret_version p.reads)) refl
  where
    by_read :
        (r : Option DbCredentials)
        → fetch (p.read_secret_version p.reads) ≡ r
        → Attempts (suc left) attempt p
    by_read (some c) e = inl (
      0,
      c,
      omega arith,
      (λ j k. absurd (omega arith)),
      nth-zero p ∙ e,
      attempts-some left attempt p c e ∙ ap (λ s. (ok c, s)) (after_none 1 attempt p),
    )
    by_read none e = elim later [
      | inl (n, c, h, fails, gives, runs) ↦ inl (
        suc n,
        c,
        omega arith,
        Fail-suc p attempt n e fails,
        nth-suc p attempt n ∙ gives,
        attempts-none left attempt p e
            ∙ (runs ∙ ap (λ s. (ok c, s)) (after-failed attempt (suc n) n p)),
      )
      | inr (fails, runs) ↦ inr (
        Fail-suc p attempt left e fails,
        attempts-none left attempt p e
            ∙ (runs ∙ ap (λ s. (raised unable_to_fetch, s)) (after-failed attempt left left p)),
      )
    ]

attempts_lem : (left attempt : ℕ) (p : Provider) → Attempts left attempt p
unfolding attempts
attempts_lem zero attempt p =
    inr
      ((λ j k. absurd (omega arith)), ap (λ s. (raised unable_to_fetch, s)) (reads_none attempt p))
attempts_lem (suc left) attempt p =
    Attempts-step left attempt p (attempts_lem left (attempt + 1) (failed attempt p))

-- The provider reads the secret until a reply holds credentials, and gives the first such ones,
-- or after `max_attempts` replies without raises its error. After the k-th failure it sleeps k times
-- the back-off.
pub fetch_with_backoff_lem :
    (p : Provider)
    → ((n : ℕ) × (c : DbCredentials) × (n < p.max_attempts)
        × Fail p n
        × (nth p n ≡ some c)
        × (fetch_with_backoff p ≡ (ok c, after (suc n) 0 n p)))
      ⊎ (Fail p p.max_attempts
          × (fetch_with_backoff p
              ≡ (raised unable_to_fetch, after p.max_attempts 0 p.max_attempts p)))
unfolding fetch_with_backoff
fetch_with_backoff_lem p = attempts_lem p.max_attempts 0 p
