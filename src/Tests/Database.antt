-- ===== src/Tests/Database.antt =====
-- Credentials that Vault gives at the second read, and their URL.
use coffee_buddy.Prelude.{
  ℕ, suc, ◌≡◌, ◌<◌, refl, ◌⊎◌, none, some, [], ◌∷◌, ◌==◌, arith, if◌then◌else◌,
}
use coffee_buddy.Effects.{ok, raised}
use coffee_buddy.Text.{Text, codes, text_eq}
use coffee_buddy.Text.Dict.{lookup}
use coffee_buddy.Number.{pos}
use coffee_buddy.Database.Credentials.{DbCredentials, to_sqlalchemy_url}
use coffee_buddy.Database.Credentials.Quoted.{url_with, IsQuoted, to_sqlalchemy_url_lem}
use coffee_buddy.Database.Vault.{
  Secret, Provider, unable_to_fetch, fetch, attempts, fetch_with_backoff,
}
use coffee_buddy.Database.Vault.Retry.{nth, Fail, after, fetch_with_backoff_lem}

abbrev secret : Secret
secret = record {
  texts =
      (codes "username", codes "u")
      ∷ (codes "password", codes "p@ß")
      ∷ (codes "host", codes "db")
      ∷ (codes "database", codes "coffee")
      ∷ [];
  port = none;
}

abbrev c : DbCredentials
c = record {
  username = codes "u";
  password = codes "p@ß";
  host = codes "db";
  port = pos 5432;
  database = codes "coffee";
  sslmode = codes "prefer";
}

abbrev provider : Provider
provider = record {
  read_secret_version = λ n. if n == 0 then none else some secret;
  max_attempts = 3;
  backoff = 1500;
  reads = 0;
  sleeps = [];
}

fetches : fetch_with_backoff provider ≡ (ok c, record provider { reads = 2; sleeps = 1500 ∷ [] })
unfolding fetch_with_backoff attempts fetch lookup text_eq
fetches = refl

fetch_with_backoff_lem_example :
    ((n : ℕ) × (d : DbCredentials) × (n < 3)
      × Fail provider n
      × (nth provider n ≡ some d)
      × (fetch_with_backoff provider ≡ (ok d, after (suc n) 0 n provider)))
    ⊎ (Fail provider 3
        × (fetch_with_backoff provider ≡ (raised unable_to_fetch, after 3 0 3 provider)))
fetch_with_backoff_lem_example = fetch_with_backoff_lem provider

to_sqlalchemy_url_lem_example :
    (user pwd : Text) × (to_sqlalchemy_url c ≡ some (url_with c user pwd))
    × IsQuoted user (codes "u")
    × IsQuoted pwd (codes "p@ß")
to_sqlalchemy_url_lem_example =
    to_sqlalchemy_url_lem c ((omega arith, refl), tt)
      ((omega arith, refl), ((omega arith, refl), ((omega arith, refl), tt)))
