-- ===== src/Database/Vault.antt =====
-- VaultDbCredentialsProvider of infra/db/session.py. The client of Vault is `hvac`'s.
pub mod Retry
use coffee_buddy.Prelude.{ℕ, zero, suc, ◌+◌, ◌*◌, Option, none, some, List, [], ◌∷◌, ◌++◌}
use coffee_buddy.Effects.{Result, ok, raised, Exec}
use coffee_buddy.Text.{Text, codes}
use coffee_buddy.Text.Dict.{Dict, lookup, or_else}
use coffee_buddy.Number.{ℤ, pos, int_of_text}
use coffee_buddy.Database.Credentials.{DbCredentials}

-- The port of a secret is a text or a number.
pub data Port : Type 0 where
  text : Text → Port
  number : ℤ → Port

-- `response["data"]["data"]`: the texts of a secret, and its port.
pub record Secret : Type 0 where
  pub texts : Dict Text
  pub port : Option Port

-- The provider, with its client: the secret that the n-th read gives, or that it raises; the reads
-- and the sleeps so far. The back-off is in milliseconds.
pub record Provider : Type 0 where
  pub read_secret_version : ℕ → Option Secret
  pub max_attempts : ℕ
  pub backoff : ℕ
  pub reads : ℕ
  pub sleeps : List ℕ

-- `RuntimeError("Unable to fetch DB credentials from Vault")`
pub data VaultError : Type 0 where
  unable_to_fetch : VaultError

-- `int(data.get("port", 5432))`
abbrev pub port_of : Option Port → Option ℤ
port_of none = some (pos 5432)
port_of (some (text t)) = int_of_text t
port_of (some (number n)) = some n

-- The arguments of the constructor, one of which may be missing.
abbrev pub credentials :
    (username password host : Option Text)
    → Option ℤ
    → (database : Option Text) → (sslmode : Text) → Option DbCredentials
credentials (some u) (some p) (some h) (some n) (some d) sslmode =
    some
      (record { username = u; password = p; host = h; port = n; database = d; sslmode = sslmode })
credentials none p h n d sslmode = none
credentials (some u) none h n d sslmode = none
credentials (some u) (some p) none n d sslmode = none
credentials (some u) (some p) (some h) none d sslmode = none
credentials (some u) (some p) (some h) (some n) none sslmode = none

-- What `_fetch` makes of a reply; `none` is a `KeyError`, a `ValueError`, or what the read raised.
unfoldable pub fetch : Option Secret → Option DbCredentials
fetch none = none
fetch (some s) =
    credentials (lookup (codes "username") s.texts) (lookup (codes "password") s.texts)
      (lookup (codes "host") s.texts) (port_of s.port) (lookup (codes "database") s.texts)
      (or_else (lookup (codes "sslmode") s.texts) (codes "prefer"))

-- `self.client.secrets.kv.v2.read_secret_version(…)`, and a `time.sleep(…)` after it
abbrev pub count_read : Provider → Provider
count_read p = record p { reads = p.reads + 1 }

abbrev pub sleep : ℕ → Provider → Provider
sleep ms p = record p { sleeps = p.sleeps ++ ms ∷ [] }

-- `return` in the `try`, or else what the next round gives.
abbrev pub after_reply :
    Option DbCredentials
    → Provider
    → (next : Result VaultError DbCredentials × Provider)
    → Result VaultError DbCredentials × Provider
after_reply none p next = next
after_reply (some c) p next = (ok c, p)

-- The loop, with the attempts that are left and the failures so far.
unfoldable pub attempts : (left attempt : ℕ) → Exec Provider VaultError DbCredentials
attempts zero attempt p = (raised unable_to_fetch, p)
attempts (suc left) attempt p =
    after_reply (fetch (p.read_secret_version p.reads)) (count_read p)
      (attempts left (attempt + 1) (sleep (p.backoff * (attempt + 1)) (count_read p)))

unfoldable pub fetch_with_backoff : Exec Provider VaultError DbCredentials
unfolding attempts
fetch_with_backoff p = attempts p.max_attempts 0 p
