-- ===== src/Database/Config.antt =====
-- DatabaseConfig of infra/db/session.py.
use coffee_buddy.Prelude.{ℕ, Bool, Option, none, some, [], ◌∷◌}
use coffee_buddy.Effects.{Result, ok, raised, Exec, pure, lift, ◌>>=◌}
use coffee_buddy.Text.{Text, codes, text_eq}
use coffee_buddy.Text.Dict.{Dict, lookup, or_else}
use coffee_buddy.Number.{ℤ, int_of_text}
use coffee_buddy.Database.Credentials.{to_sqlalchemy_url}
use coffee_buddy.Database.Vault.{Provider, Secret, VaultError, fetch_with_backoff}

pub record DatabaseConfig : Type 0 where
  pub url : Text
  pub echo : Bool
  pub pool_size : ℤ
  pub max_overflow : ℤ
  pub pool_timeout : ℤ

-- A `ValueError` of `int`, the `RuntimeError` of the provider, the `UnicodeEncodeError` of the URL,
-- and the `KeyError` for `DATABASE_URL`.
pub data ConfigError : Type 0 where
  no_number : Text → ConfigError
  vault_failed : VaultError → ConfigError
  no_encoding : ConfigError
  database_url_missing : ConfigError

-- `int(os.getenv(name, default))`
abbrev pub int_or : Dict Text → (name default : Text) → Result ConfigError ℤ
int_or environ name default =
    let t = or_else (lookup name environ) default in
    elim (int_of_text t) [ none ↦ raised (no_number t) | some n ↦ ok n ]

-- `lower` is `str.lower`; `client url token mount_point path n` is what the n-th read of the secret
-- gives with `hvac.Client(url=url, token=token)`, or `none` where it raises.
module _ (lower : Text → Text)
    (client : (url token : Option Text) (mount_point path : Text) → ℕ → Option Secret) where
  -- The constructor of the provider, with its defaults
  abbrev pub new_provider :
      (secret_path : Text) (url token : Option Text) (mount_point : Text) → Provider
  new_provider secret_path url token mount_point = record {
    read_secret_version = client url token mount_point secret_path;
    max_attempts = 3;
    backoff = 1500;
    reads = 0;
    sleeps = [];
  }

  -- `provider.fetch_with_backoff().to_sqlalchemy_url()`, and the provider after it
  abbrev pub url_of_secret : Provider → Result ConfigError Text × Option Provider
  url_of_secret provider =
      let (r, p) = fetch_with_backoff provider in
      (
        elim r [
          | raised e ↦ raised (vault_failed e)
          | ok credentials ↦ elim (to_sqlalchemy_url credentials) [
            | none ↦ raised no_encoding
            | some url ↦ ok url
          ]
        ],
        some p,
      )

  abbrev pub database_url : Dict Text → Result ConfigError Text
  database_url environ = elim (lookup (codes "DATABASE_URL") environ) [
    | none ↦ raised database_url_missing
    | some url ↦ ok url
  ]

  -- `if vault_secret_path:`
  abbrev pub url_from :
      Dict Text → (vault_secret_path : Option Text) → Exec (Option Provider) ConfigError Text
  url_from environ none p = (database_url environ, p)
  url_from environ (some []) p = (database_url environ, p)
  url_from environ (some (c ∷ path)) p = url_of_secret (
      new_provider (c ∷ path) (lookup (codes "VAULT_ADDR") environ)
        (lookup (codes "VAULT_TOKEN") environ)
        (or_else (lookup (codes "VAULT_KV_MOUNT") environ) (codes "secret")))

  -- The state is the provider, when there is one.
  unfoldable pub from_env : Dict Text → Exec (Option Provider) ConfigError DatabaseConfig
  from_env environ = do
    pool_size ← lift (int_or environ (codes "SQL_POOL_SIZE") (codes "5"))
    max_overflow ← lift (int_or environ (codes "SQL_MAX_OVERFLOW") (codes "5"))
    pool_timeout ← lift (int_or environ (codes "SQL_POOL_TIMEOUT") (codes "30"))
    url ← url_from environ (lookup (codes "VAULT_DB_SECRET_PATH") environ)
    pure (record {
      url = url;
      echo =
          text_eq (lower (or_else (lookup (codes "SQL_ECHO") environ) (codes "false")))
            (codes "true");
      pool_size = pool_size;
      max_overflow = max_overflow;
      pool_timeout = pool_timeout;
    })
