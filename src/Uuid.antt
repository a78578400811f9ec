-- ===== src/Uuid.antt =====
-- Identifiers. A `uuid.UUID` is its 128-bit integer; `str(uuid)` and `UUID(text)` of the standard
-- library are written out, but for the digits outside ASCII that `int(text, 16)` would take.
pub mod RoundTrip
use coffee_buddy.Prelude.{
  ℕ, zero, suc, ◌+◌, ◌-◌, ◌*◌, ◌/◌, ◌%◌, Bool, true, false, ◌&&◌, ◌||◌, Option, none, some, List,
  [], ◌∷◌, ◌++◌, leb, ltb, ◌==◌, if◌then◌else◌, length, take, drop, ◌≡◌, refl,
}
use coffee_buddy.Text.{Text, codes, text_eq, strip, strip_by, remove_all}

hex_char : ℕ → ℕ
hex_char d = if ltb d 10 then b'0' + d else b'a' + (d - 10)

hex_value : ℕ → Option ℕ
hex_value c =
    if leb b'0' c && leb c b'9'
    then some (c - b'0')
    else if leb b'a' c && leb c b'f'
    then some (c - b'a' + 10)
    else if leb b'A' c && leb c b'F'
    then some (c - b'A' + 10)
    else none

-- `"%0<n>x" % value`
hex_digits : ℕ → ℕ → Text
unfolding hex_char
hex_digits zero value = []
hex_digits (suc n) value = hex_digits n (value / 16) ++ hex_char (value % 16) ∷ []

dashed : Text → Text
dashed hex =
    take 8 hex
    ++ b'-'
      ∷ (take 4 (drop 8 hex)
          ++ b'-' ∷ (take 4 (drop 12 hex) ++ b'-' ∷ (take 4 (drop 16 hex) ++ b'-' ∷ drop 20 hex)))

-- `str(uuid)`
unfoldable pub to_text : ℕ → Text
unfolding hex_digits dashed
to_text uuid = dashed (hex_digits 32 uuid)

-- The digits of `int(text, 16)`: single underscores may stand between them.
int_digits : Bool → ℕ → Text → Option ℕ
int_digits after_digit acc [] = if after_digit then some acc else none
int_digits after_digit acc (c ∷ cs) =
    let skip = int_digits false acc cs in
    let next = λ (d : ℕ). int_digits true (acc * 16 + d) cs in
    if c == b'_'
    then (if after_digit then skip else none)
    else elim (hex_value c) [ none ↦ none | some d ↦ next d ]

unprefixed : Text → Option ℕ
unfolding int_digits hex_value
unprefixed t = int_digits false 0 t

prefixed : Text → Option ℕ
unfolding unprefixed
prefixed [] = none
prefixed (c ∷ t) = if c == b'_' then unprefixed t else unprefixed (c ∷ t)

unsigned : Text → Option ℕ
unfolding unprefixed prefixed
unsigned (a ∷ b ∷ t) =
    if a == b'0' && (b == b'x' || b == b'X') then prefixed t else unprefixed (a ∷ b ∷ t)
unsigned t = unprefixed t

-- `int(text, 16)` of a text with no `-`
int_hex : Text → Option ℕ
unfolding unsigned
int_hex (c ∷ t) = if c == b'+' then unsigned t else unsigned (c ∷ t)
int_hex [] = none

is_brace : ℕ → Bool
is_brace c = c == b'{' || c == b'}'

bare_hex : Text → Text
unfolding is_brace
bare_hex t =
    remove_all (codes "-")
      (strip_by is_brace (remove_all (codes "uuid:") (remove_all (codes "urn:") t)))

-- `UUID(text)`; `none` is its `ValueError`.
unfoldable pub of_text : Text → Option ℕ
unfolding bare_hex int_hex
of_text t = let hex = bare_hex t in if length hex == 32 then int_hex (strip hex) else none

-- The argument type `str | UUID`.
pub data Ref : Type 0 where
  uuid : ℕ → Ref
  text : Text → Ref

-- `_as_uuid(value)`
unfoldable pub as_uuid : Ref → Option ℕ
as_uuid (uuid u) = some u
as_uuid (text t) = of_text t

pub as_uuid-uuid : (u : ℕ) → as_uuid (uuid u) ≡ some u
unfolding as_uuid
as_uuid-uuid u = refl
