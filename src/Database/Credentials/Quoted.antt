-- ===== src/Database/Credentials/Quoted.antt =====
-- The user and the password in the URL of the credentials.
use mathlib.Core.List.{append_assoc}
use coffee_buddy.Prelude.{
  ℕ, ◌+◌, ◌-◌, ◌*◌, ◌/◌, ◌%◌, ◌<◌, ◌≡◌, refl, ap, ◌∙◌, true, false, ◌||◌, some, List, [], ◌∷◌, ◌++◌,
  All, All-append, Bool-cases, inl, inr, ltb, ◌==◌, if◌then◌else◌, arith,
}
use coffee_buddy.Text.{Text, codes}
use coffee_buddy.Text.Utf8.{utf8_char, decode, decode_from, between, with_char}
use coffee_buddy.Text.Utf8.RoundTrip.{IsEncodable, decode_from-utf8_char}
use coffee_buddy.Number.{int_text}
use coffee_buddy.Database.Credentials.{
  DbCredentials, is_unreserved, hex_upper, quote_byte, quote_bytes, quote_plus, to_sqlalchemy_url,
}

-- A character that ends or divides neither the user nor the password in a URL.
abbrev pub IsInert : ℕ → Type 0
IsInert c =
    (c == b':' || c == b'@' || c == b'/' || c == b'?' || c == b'#' || c == b'[' || c == b']')
    ≡ false

hex_upper-IsInert : (d : ℕ) → d < 16 → IsInert (hex_upper d)
unfolding hex_upper
hex_upper-IsInert d h = ground arith

quote_byte-IsInert : (b : ℕ) → b < 256 → All IsInert (quote_byte b)
unfolding quote_byte
quote_byte-IsInert b h = elim (Bool-cases (is_unreserved b)) [
  | inl e ↦ rw e (unfold is_unreserved in ground arith, tt)
  | inr e ↦ elim (Bool-cases (b == b' ')) [
    | inl s ↦ rw (e, s) (refl, tt)
    | inr s ↦
        rw (e, s)
          (
            refl,
            (
              hex_upper-IsInert (b / 16) (omega arith),
              (hex_upper-IsInert (b % 16) (omega arith), tt),
            ),
          )
  ]
]

quote_bytes-IsInert : (bs : List ℕ) → All (λ b. b < 256) bs → All IsInert (quote_bytes bs)
unfolding quote_bytes
quote_bytes-IsInert [] h = tt
quote_bytes-IsInert (b ∷ bs) h =
    All-append IsInert (quote_byte b) (quote_bytes bs) (quote_byte-IsInert b h.0)
      (quote_bytes-IsInert bs h.1)

utf8_char-byte : (c : ℕ) → c < 1114112 → All (λ b. b < 256) (utf8_char c)
unfolding utf8_char
utf8_char-byte c h = elim (Bool-cases (ltb c 128)) [
  | inl a ↦ rw a (ground arith, tt)
  | inr a ↦ elim (Bool-cases (ltb c 2048)) [
    | inl b ↦ rw (a, b) (ground arith, (ground arith, tt))
    | inr b ↦ elim (Bool-cases (ltb c 65536)) [
      | inl d ↦ rw (a, b, d) (ground arith, (ground arith, (ground arith, tt)))
      | inr d ↦ rw (a, b, d) (ground arith, (ground arith, (ground arith, (ground arith, tt))))
    ]
  ]
]

-- What stands in the quoted text before a character: nothing, a percent sign, or one and a digit.
data Pending : Type 0 where
  plain percent : Pending
  digit : (high : ℕ) → Pending

abbrev hex_value : ℕ → ℕ
hex_value c = if ltb c 58 then c - 48 else c - 55

abbrev advance : Pending → ℕ → Pending × List ℕ
advance plain c =
    if c == 37 then (percent, []) else if c == 43 then (plain, 32 ∷ []) else (plain, c ∷ [])
advance percent c = (digit (hex_value c), [])
advance (digit high) c = (plain, (16 * high + hex_value c) ∷ [])

unfoldable unquote_from : Pending → Text → List ℕ
unquote_from pending [] = []
unquote_from pending (c ∷ cs) = (advance pending c).1 ++ unquote_from (advance pending c).0 cs

-- How the part of a URL is read: a plus sign is a space, a percent sign and two digits are a byte,
-- and the bytes are the UTF-8 of the text.
pub Reads : (quoted text : Text) → Type 0
Reads quoted text = decode (unquote_from plain quoted) ≡ some text

hex_value-hex_upper : (d : ℕ) → d < 16 → hex_value (hex_upper d) ≡ d
unfolding hex_upper
hex_value-hex_upper d h = ground arith

-- A byte that is not quoted stands for itself.
advance-is_unreserved : (b : ℕ) → is_unreserved b ≡ true → advance plain b ≡ (plain, b ∷ [])
unfolding is_unreserved
advance-is_unreserved b h = ground arith

unquote_from-quote_byte :
    (b : ℕ) (rest : Text)
    → b < 256
    → unquote_from plain (quote_byte b ++ rest) ≡ b ∷ unquote_from plain rest
unfolding quote_byte unquote_from
unquote_from-quote_byte b rest h = elim (Bool-cases (is_unreserved b)) [
  | inl e ↦ rw e (ap (λ r. r.1 ++ unquote_from r.0 rest) (advance-is_unreserved b e))
  | inr e ↦ elim (Bool-cases (b == b' ')) [
    | inl s ↦ rw (e, s) (ap (λ x. x ∷ unquote_from plain rest) (ground arith))
    | inr s ↦
        rw (e, s)
          (ap (λ x. x ∷ unquote_from plain rest)
            (rw
              (
                hex_value-hex_upper (b / 16) (omega arith),
                hex_value-hex_upper (b % 16) (omega arith),
              )
              (omega arith)))
  ]
]

unquote_from-quote_bytes :
    (bs : List ℕ) (rest : Text)
    → All (λ b. b < 256) bs
    → unquote_from plain (quote_bytes bs ++ rest) ≡ bs ++ unquote_from plain rest
unfolding quote_bytes
unquote_from-quote_bytes [] rest h = refl
unquote_from-quote_bytes (b ∷ bs) rest h =
    ap (unquote_from plain) (append_assoc (quote_byte b) (quote_bytes bs) rest)
    ∙ unquote_from-quote_byte b (quote_bytes bs ++ rest) h.0
    ∙ ap (λ x. b ∷ x) (unquote_from-quote_bytes bs rest h.1)

-- The quoted text has no character that separates the parts of a URL, and is read as the text.
abbrev pub IsQuoted : (quoted text : Text) → Type 0
IsQuoted quoted text = All IsInert quoted × Reads quoted text

quote_plus-IsQuoted :
    (t : Text) → IsEncodable t → (q : Text) × (quote_plus t ≡ some q) × IsQuoted q t
unfolding quote_plus Reads decode decode_from unquote_from
quote_plus-IsQuoted [] h = ([], refl, (tt, refl))
quote_plus-IsQuoted (c ∷ cs) h =
    let (rest, e, (inert, reads)) = quote_plus-IsQuoted cs h.1 in
    (
      quote_bytes (utf8_char c) ++ rest,
      rw (e, h.0.1) refl,
      (
        All-append IsInert (quote_bytes (utf8_char c)) rest
            (quote_bytes-IsInert (utf8_char c) (utf8_char-byte c h.0.0)) inert,
        ap (λ bs. decode_from bs between)
              (unquote_from-quote_bytes (utf8_char c) rest (utf8_char-byte c h.0.0))
            ∙ decode_from-utf8_char c (unquote_from plain rest) h.0.0 h.0.1
            ∙ ap (with_char c) reads,
      ),
    )

-- The URL of the credentials where the user and the password are written like this.
abbrev pub url_with : DbCredentials → (user pwd : Text) → Text
url_with c user pwd =
    codes "postgresql+psycopg://"
    ++ (user
        ++ (b':'
            ∷ (pwd
                ++ (b'@'
                    ∷ (c.host
                        ++ (b':'
                            ∷ (int_text c.port
                                ++ (b'/' ∷ (c.database ++ (codes "?sslmode=" ++ c.sslmode))))))))))

-- For credentials whose name and password can be encoded there is a URL. Its user and password
-- have no character that separates the parts of a URL, and are read as the name and the password of
-- the credentials, whatever these are.
pub to_sqlalchemy_url_lem :
    (c : DbCredentials)
    → IsEncodable c.username
    → IsEncodable c.password
    → (user pwd : Text) × (to_sqlalchemy_url c ≡ some (url_with c user pwd))
      × IsQuoted user c.username
      × IsQuoted pwd c.password
unfolding to_sqlalchemy_url
to_sqlalchemy_url_lem c h k =
    let (user, e, quoted_user) = quote_plus-IsQuoted c.username h in
    let (pwd, f, quoted_pwd) = quote_plus-IsQuoted c.password k in
    (user, pwd, rw (e, f) refl, quoted_user, quoted_pwd)
