-- ===== src/Slack/Signature/Genuine.antt =====
-- Which requests SlackSignatureVerifier accepts.
use coffee_buddy.Prelude.{
  ℕ, ◌+◌, ◌≤◌, ◌≡◌, ◌≢◌, ◌↔◌, refl, Bool, true, false, not, Option, none, some, List, [], ◌∷◌, ◌++◌,
  if◌then◌else◌, arith,
}
use coffee_buddy.Effects.{Result, ok, raised}
use coffee_buddy.Text.{Text, codes, text_eq_iff, text_eq_refl}
use coffee_buddy.Text.Utf8.{encode, decode}
use coffee_buddy.Number.{ℤ, pos, ◌-ℤ◌, pos_part, neg_part, abs, scale, leb_ℤ, int_of_text}
use coffee_buddy.Time.{second}
use coffee_buddy.Slack.Signature.{
  Verifier, VerifyError, rejected, stale_timestamp, verify, verify_at, compare, compute_signature,
  signed, signed_text, basestring, is_stale, is_ascii,
}

-- The time differs by at most the tolerance, which is a number of seconds.
abbrev pub IsFresh : (now : ℕ) → (timestamp tolerance : ℤ) → Type 0
IsFresh now timestamp tolerance =
    abs (pos now -ℤ scale second timestamp) + neg_part (scale second tolerance)
    ≤ pos_part (scale second tolerance)

is_stale_iff :
    (now : ℕ) (timestamp tolerance : ℤ)
    → (is_stale now timestamp tolerance ≡ false) ↔ IsFresh now timestamp tolerance
unfolding is_stale
is_stale_iff now timestamp tolerance =
    in_numbers (abs (pos now -ℤ scale second timestamp)) (scale second tolerance)
  where
    in_numbers : (a : ℕ) (z : ℤ) → (not (leb_ℤ (pos a) z) ≡ false) ↔ (a + neg_part z ≤ pos_part z)
    in_numbers a z = ground arith

module _ (hexdigest : (secret message : List ℕ) → Text) (v : Verifier) (now : ℕ)
    (body : List ℕ) where
  -- The headers are there, the timestamp is the text of a number of seconds that differs from the
  -- time by at most the tolerance, and the signature is `v0=` with the digest of the base string.
  abbrev pub IsSigned : (timestamp signature : Text) → Type 0
  IsSigned t s =
      (text : Text) × (message : List ℕ) × (decode body ≡ some text)
      × (encode (basestring t text) ≡ some message)
      × (s ≡ codes "v0=" ++ hexdigest v.secret message)

  abbrev pub IsGenuine : (timestamp signature : Option Text) → Type 0
  IsGenuine timestamp signature =
      (t : Text) × (s : Text) × (n : ℤ) × (timestamp ≡ some t)
      × (t ≢ [])
      × (signature ≡ some s)
      × (int_of_text t ≡ some n)
      × IsFresh now n v.tolerance
      × IsSigned t s

  compare-ok : (s : Text) (r : Result VerifyError Text) → compare hexdigest s r ≡ ok tt → r ≡ ok s
  compare-ok s (raised e) h = absurd (cc)
  compare-ok s (ok expected) h = ground (arith, text_eq_iff expected s)

  compute_signature-ok :
      (t s : Text) → compute_signature hexdigest v.secret t body ≡ ok s → IsSigned t s
  unfolding compute_signature
  compute_signature-ok t s h = by_text (decode body) refl h
    where
      by_message :
          (text : Text) (m : Option (List ℕ))
          → decode body ≡ some text
          → encode (basestring t text) ≡ m
          → signed hexdigest v.secret m ≡ ok s
          → IsSigned t s
      by_message text none d e g = absurd (cc)
      by_message text (some m) d e g = (text, m, d, e, ground arith)

      by_text :
          (r : Option Text)
          → decode body ≡ r
          → signed_text hexdigest v.secret t r ≡ ok s
          → IsSigned t s
      by_text none d g = absurd (cc)
      by_text (some text) d g = by_message text (encode (basestring t text)) d refl g

  if-ok :
      (b : Bool) (r : Result VerifyError Unit)
      → (if b then raised (rejected stale_timestamp) else r) ≡ ok tt
      → (b ≡ false) × (r ≡ ok tt)
  if-ok true r h = absurd (cc)
  if-ok false r h = (refl, h)

  verify_at-ok :
      (t s : Text) (r : Option ℤ)
      → verify_at hexdigest v now r t s body ≡ ok tt
      → (n : ℤ) × (r ≡ some n) × IsFresh now n v.tolerance × IsSigned t s
  verify_at-ok t s none h = absurd (cc)
  verify_at-ok t s (some n) h =
      let (fresh, compared) =
        if-ok (is_stale now n v.tolerance)
          (compare hexdigest s (compute_signature hexdigest v.secret t body)) h in
      (
        n,
        refl,
        (is_stale_iff now n v.tolerance).0 fresh,
        compute_signature-ok t s
            (compare-ok s (compute_signature hexdigest v.secret t body) compared),
      )

  pub verify-IsGenuine :
      (timestamp signature : Option Text)
      → verify hexdigest v now timestamp signature body ≡ ok tt
      → IsGenuine timestamp signature
  unfolding verify
  verify-IsGenuine none signature h = absurd (cc)
  verify-IsGenuine (some []) signature h = absurd (cc)
  verify-IsGenuine (some (c ∷ cs)) none h = absurd (cc)
  verify-IsGenuine (some (c ∷ cs)) (some []) h = absurd (cc)
  verify-IsGenuine (some (c ∷ cs)) (some (d ∷ ds)) h =
      let (n, e, fresh, is_signed) = verify_at-ok (c ∷ cs) (d ∷ ds) (int_of_text (c ∷ cs)) h in
      (c ∷ cs, d ∷ ds, n, refl, (λ k. absurd (ground arith)), refl, e, fresh, is_signed)

  accepted :
      (t : Text) (n : ℤ) (text : Text) (message : List ℕ)
      → is_ascii (hexdigest v.secret message) ≡ true
      → t ≢ []
      → int_of_text t ≡ some n
      → IsFresh now n v.tolerance
      → decode body ≡ some text
      → encode (basestring t text) ≡ some message
      → verify hexdigest v now (some t) (some (codes "v0=" ++ hexdigest v.secret message)) body
        ≡ ok tt
  unfolding verify compute_signature
  accepted [] n text message ascii h e fresh d m = absurd (h refl)
  accepted (c ∷ cs) n text message ascii h e fresh d m =
      rw
        (
          e,
          (is_stale_iff now n v.tolerance).1 fresh,
          d,
          m,
          ascii,
          text_eq_refl (codes "v0=" ++ hexdigest v.secret message),
        )
        refl

  -- Where the digest is ASCII, which `compare_digest` needs: `verify` returns exactly for the
  -- genuine requests, and raises for all others.
  pub verify_iff :
      ((message : List ℕ) → is_ascii (hexdigest v.secret message) ≡ true)
      → (timestamp signature : Option Text)
      → (verify hexdigest v now timestamp signature body ≡ ok tt) ↔ IsGenuine timestamp signature
  verify_iff ascii timestamp signature = (
    verify-IsGenuine timestamp signature,
    λ (t, s, n, has_t, h, has_s, e, fresh, is_signed).
        let (text, message, d, m, is_s) = is_signed in
        rw (has_t, has_s, is_s) (accepted t n text message (ascii message) h e fresh d m),
  )
