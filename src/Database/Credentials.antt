-- ===== src/Database/Credentials.antt =====
-- DbCredentials of infra/db/session.py, with `urllib.parse.quote_plus`.
pub mod Quoted
use coffee_buddy.Prelude.{
  ℕ, ◌+◌, ◌-◌, ◌/◌, ◌%◌, ◌<◌, ◌≡◌, refl, Bool, false, ◌&&◌, ◌||◌, Option, none, some, List, [], ◌∷◌,
  ◌++◌, All, All-append, Bool-cases, inl, inr, leb, ltb, ◌==◌, if◌then◌else◌, arith,
}
use coffee_buddy.Text.{Text, codes}
use coffee_buddy.Text.Utf8.{utf8_char, is_surrogate}
use coffee_buddy.Text.Utf8.RoundTrip.{IsEncodable}
use coffee_buddy.Number.{ℤ, int_text}

pub record DbCredentials : Type 0 where
  pub username : Text
  pub password : Text
  pub host : Text
  pub port : ℤ
  pub database : Text
  pub sslmode : Text

-- The characters that are not quoted: letters, digits, and `_.-~`.
unfoldable pub is_unreserved : ℕ → Bool
is_unreserved c =
    (leb b'a' c && leb c b'z')
    || (leb b'A' c && leb c b'Z')
    || (leb b'0' c && leb c b'9')
    || c == b'_'
    || c == b'.'
    || c == b'-'
    || c == b'~'

-- `"%02X" % byte`, a digit at a time
unfoldable pub hex_upper : ℕ → ℕ
hex_upper d = if ltb d 10 then b'0' + d else b'A' + (d - 10)

unfoldable pub quote_byte : ℕ → Text
quote_byte b =
    if is_unreserved b
    then b ∷ []
    else if b == b' '
    then b'+' ∷ []
    else b'%' ∷ hex_upper (b / 16) ∷ hex_upper (b % 16) ∷ []

unfoldable pub quote_bytes : List ℕ → Text
quote_bytes [] = []
quote_bytes (b ∷ bs) = quote_byte b ++ quote_bytes bs

-- `quote_plus(text)`; `none` is its `UnicodeEncodeError`.
unfoldable pub quote_plus : Text → Option Text
quote_plus [] = some []
quote_plus (c ∷ cs) = elim (quote_plus cs) [
  | none ↦ none
  | some rest ↦ if is_surrogate c then none else some (quote_bytes (utf8_char c) ++ rest)
]

abbrev pub url_of : DbCredentials → Option Text → Option Text → Option Text
url_of c none pwd = none
url_of c (some user) none = none
url_of c (some user) (some pwd) = some (
    codes "postgresql+psycopg://"
    ++ (user
        ++ (b':'
            ∷ (pwd
                ++ (b'@'
                    ∷ (c.host
                        ++ (b':'
                            ∷ (int_text c.port
                                ++ (b'/' ∷ (c.database ++ (codes "?sslmode=" ++ c.sslmode)))))))))))

unfoldable pub to_sqlalchemy_url : DbCredentials → Option Text
to_sqlalchemy_url c = url_of c (quote_plus c.username) (quote_plus c.password)
