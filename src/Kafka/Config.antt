-- ===== src/Kafka/Config.antt =====
-- infra/kafka/config.py
pub mod RoundTrip
use coffee_buddy.Prelude.{◌≡◌, ◌≢◌, refl, Option, none, some, List, [], ◌∷◌, ◌++◌, arith}
use coffee_buddy.Effects.{Result, ok, raised}
use coffee_buddy.Text.{Text, codes, is_empty, text_eq}
use coffee_buddy.Text.Dict.{Dict, lookup, or_else}
use coffee_buddy.Number.{ℤ, int_of_text, int_text}

pub record KafkaSettings : Type 0 where
  pub bootstrap_servers : Text
  pub security_protocol : Text
  pub sasl_mechanism : Option Text
  pub sasl_username : Option Text
  pub sasl_password : Option Text
  pub client_id : Text
  pub request_timeout_ms : ℤ

-- What the two `ValueError`s say.
pub data SettingsError : Type 0 where
  bootstrap_required : SettingsError
  no_number : Text → SettingsError

-- `env or os.environ`
abbrev pub source_of : (environ : Dict Text) → Option (Dict Text) → Dict Text
source_of environ none = environ
source_of environ (some []) = environ
source_of environ (some (e ∷ es)) = e ∷ es

abbrev pub settings :
    Dict Text
    → (bootstrap : Text) → Option ℤ
    → (timeout : Text) → Result SettingsError KafkaSettings
settings source bootstrap none timeout = raised (no_number timeout)
settings source bootstrap (some n) timeout = ok (record {
  bootstrap_servers = bootstrap;
  security_protocol = or_else (lookup (codes "KAFKA_SECURITY_PROTOCOL") source) (codes "PLAINTEXT");
  sasl_mechanism = lookup (codes "KAFKA_SASL_MECHANISM") source;
  sasl_username = lookup (codes "KAFKA_SASL_USERNAME") source;
  sasl_password = lookup (codes "KAFKA_SASL_PASSWORD") source;
  client_id = or_else (lookup (codes "KAFKA_CLIENT_ID") source) (codes "coffeebuddy");
  request_timeout_ms = n;
})

-- `if not bootstrap: raise`
abbrev pub with_bootstrap : Dict Text → Option Text → Result SettingsError KafkaSettings
with_bootstrap source none = raised bootstrap_required
with_bootstrap source (some []) = raised bootstrap_required
with_bootstrap source (some (c ∷ cs)) =
    let timeout = or_else (lookup (codes "KAFKA_REQUEST_TIMEOUT_MS") source) (codes "12000") in
    settings source (c ∷ cs) (int_of_text timeout) timeout

-- `os.environ` is an argument.
unfoldable pub from_env :
    (environ : Dict Text) → Option (Dict Text) → Result SettingsError KafkaSettings
from_env environ env =
    let source = source_of environ env in
    with_bootstrap source (lookup (codes "KAFKA_BOOTSTRAP_SERVERS") source)
