-- ===== src/Kafka/Config/RoundTrip.antt =====
-- Settings written as environment variables and read again.
use coffee_buddy.Prelude.{◌≡◌, ◌≢◌, ◌⊎◌, refl, Option, none, some, [], ◌∷◌, ◌++◌, arith}
use coffee_buddy.Effects.{ok, raised}
use coffee_buddy.Text.{Text, codes, text_eq}
use coffee_buddy.Text.Dict.{Dict, lookup}
use coffee_buddy.Number.{int_text}
use coffee_buddy.Number.RoundTrip.{int_of_text-int_text}
use coffee_buddy.Kafka.Config.{KafkaSettings, from_env, bootstrap_required}

-- A variable that is set, or not.
abbrev pub variable : Text → Option Text → Dict Text
variable name none = []
variable name (some v) = (name, v) ∷ []

abbrev pub exported : KafkaSettings → Dict Text
exported s =
    (codes "KAFKA_BOOTSTRAP_SERVERS", s.bootstrap_servers)
    ∷ (codes "KAFKA_SECURITY_PROTOCOL", s.security_protocol)
    ∷ (codes "KAFKA_CLIENT_ID", s.client_id)
    ∷ (codes "KAFKA_REQUEST_TIMEOUT_MS", int_text s.request_timeout_ms)
    ∷ (variable (codes "KAFKA_SASL_MECHANISM") s.sasl_mechanism
        ++ (variable (codes "KAFKA_SASL_USERNAME") s.sasl_username
            ++ variable (codes "KAFKA_SASL_PASSWORD") s.sasl_password))

-- Settings with a list of servers are what is read from the environment that has them as its
-- variables, whatever else the process has in its own.
pub from_env-exported :
    (environ : Dict Text) (s : KafkaSettings)
    → s.bootstrap_servers ≢ []
    → from_env environ (some (exported s)) ≡ ok s
unfolding from_env lookup text_eq
from_env-exported environ s h =
    read s.bootstrap_servers s.sasl_mechanism s.sasl_username s.sasl_password h
  where
    with_fields : Text → (m u p : Option Text) → KafkaSettings
    with_fields b m u p = record s {
      bootstrap_servers = b;
      sasl_mechanism = m;
      sasl_username = u;
      sasl_password = p;
    }

    read :
        (b : Text) (m u p : Option Text)
        → b ≢ []
        → from_env environ (some (exported (with_fields b m u p))) ≡ ok (with_fields b m u p)
    read [] m u p k = absurd (k refl)
    read (c ∷ cs) none none none k = rw (int_of_text-int_text s.request_timeout_ms) refl
    read (c ∷ cs) none none (some p) k = rw (int_of_text-int_text s.request_timeout_ms) refl
    read (c ∷ cs) none (some u) none k = rw (int_of_text-int_text s.request_timeout_ms) refl
    read (c ∷ cs) none (some u) (some p) k = rw (int_of_text-int_text s.request_timeout_ms) refl
    read (c ∷ cs) (some m) none none k = rw (int_of_text-int_text s.request_timeout_ms) refl
    read (c ∷ cs) (some m) none (some p) k = rw (int_of_text-int_text s.request_timeout_ms) refl
    read (c ∷ cs) (some m) (some u) none k = rw (int_of_text-int_text s.request_timeout_ms) refl
    read (c ∷ cs) (some m) (some u) (some p) k = rw (int_of_text-int_text s.request_timeout_ms) refl

-- Without servers nothing is read: a variable that is missing or empty is an error.
pub from_env-no_servers :
    (environ env : Dict Text)
    → env ≢ []
    → (lookup (codes "KAFKA_BOOTSTRAP_SERVERS") env ≡ none)
      ⊎ (lookup (codes "KAFKA_BOOTSTRAP_SERVERS") env ≡ some [])
    → from_env environ (some env) ≡ raised bootstrap_required
unfolding from_env
from_env-no_servers environ env h e = ground arith
