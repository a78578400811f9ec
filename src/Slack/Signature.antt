-- ===== src/Slack/Signature.antt =====
-- api/slack_runs/signature.py. `hexdigest secret message` stands for HMAC with SHA-256.
pub mod Genuine
use coffee_buddy.Prelude.{
  ℕ, ◌+◌, ◌*◌, ◌≡◌, Bool, true, false, ◌&&◌, not, Option, none, some, List, [], ◌∷◌, ◌++◌, ltb, leb,
  if◌then◌else◌,
}
use coffee_buddy.Effects.{Result, ok, raised}
use coffee_buddy.Text.{Text, codes, text_eq}
use coffee_buddy.Text.Utf8.{encode, decode}
use coffee_buddy.Number.{ℤ, pos, ◌-ℤ◌, abs, scale, leb_ℤ, int_of_text}
use coffee_buddy.Time.{second}

-- What `SlackVerificationError` says.
pub data Rejection : Type 0 where
  missing_headers stale_timestamp mismatch : Rejection

-- Besides, `int`, `decode`, `encode` and `compare_digest` raise.
pub data VerifyError : Type 0 where
  rejected : Rejection → VerifyError
  value_error unicode_error type_error : VerifyError

pub record Verifier : Type 0 where
  pub secret : List ℕ
  pub tolerance : ℤ

-- The constructor: `signing_secret.encode()` may raise.
abbrev pub new_verifier : (signing_secret : Text) → (tolerance_seconds : ℤ) → Option Verifier
new_verifier signing_secret tolerance_seconds = elim (encode signing_secret) [
  | none ↦ none
  | some secret ↦ some (record { secret = secret; tolerance = tolerance_seconds })
]

abbrev pub is_ascii : Text → Bool
is_ascii [] = true
is_ascii (c ∷ cs) = ltb c 128 && is_ascii cs

-- `abs(time.time() - int(timestamp)) > self._tolerance`, with the time in microseconds
unfoldable pub is_stale : (now : ℕ) → (timestamp tolerance : ℤ) → Bool
is_stale now timestamp tolerance =
    not (leb_ℤ (pos (abs (pos now -ℤ scale second timestamp))) (scale second tolerance))

-- `f"v0:{timestamp}:{text}"`
abbrev pub basestring : (timestamp text : Text) → Text
basestring timestamp text = codes "v0:" ++ (timestamp ++ (b':' ∷ text))

module _ (hexdigest : (secret message : List ℕ) → Text) where
  abbrev pub signed : List ℕ → Option (List ℕ) → Result VerifyError Text
  signed secret none = raised unicode_error
  signed secret (some message) = ok (codes "v0=" ++ hexdigest secret message)

  abbrev pub signed_text : List ℕ → Text → Option Text → Result VerifyError Text
  signed_text secret timestamp none = raised unicode_error
  signed_text secret timestamp (some text) = signed secret (encode (basestring timestamp text))

  unfoldable pub compute_signature :
      List ℕ → (timestamp : Text) → (body : List ℕ) → Result VerifyError Text
  compute_signature secret timestamp body = signed_text secret timestamp (decode body)

  -- `hmac.compare_digest(expected_signature, signature)`: a `TypeError` unless both are ASCII.
  abbrev pub compare : (signature : Text) → Result VerifyError Text → Result VerifyError Unit
  compare signature (raised e) = raised e
  compare signature (ok expected) =
      if is_ascii expected && is_ascii signature
      then if text_eq expected signature then ok tt else raised (rejected mismatch)
      else raised type_error

  abbrev pub verify_at :
      Verifier
      → (now : ℕ) → Option ℤ
      → (timestamp signature : Text) → List ℕ
      → Result VerifyError Unit
  verify_at v now none timestamp signature body = raised value_error
  verify_at v now (some n) timestamp signature body =
      if is_stale now n v.tolerance
      then raised (rejected stale_timestamp)
      else compare signature (compute_signature v.secret timestamp body)

  -- `now` is `time.time()`.
  unfoldable pub verify :
      Verifier
      → (now : ℕ) → (timestamp signature : Option Text) → (body : List ℕ) → Result VerifyError Unit
  verify v now none signature body = raised (rejected missing_headers)
  verify v now (some []) signature body = raised (rejected missing_headers)
  verify v now (some (c ∷ cs)) none body = raised (rejected missing_headers)
  verify v now (some (c ∷ cs)) (some []) body = raised (rejected missing_headers)
  verify v now (some (c ∷ cs)) (some (d ∷ ds)) body =
      verify_at v now (int_of_text (c ∷ cs)) (c ∷ cs) (d ∷ ds) body
