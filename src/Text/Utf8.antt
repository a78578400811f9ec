-- ===== src/Text/Utf8.antt =====
-- `str.encode()` and `bytes.decode()`: UTF-8, strict.
pub mod RoundTrip
use coffee_buddy.Prelude.{
  ℕ, zero, suc, ◌+◌, ◌-◌, ◌*◌, ◌/◌, ◌%◌, ◌≡◌, Bool, true, false, not, ◌&&◌, Option, none, some,
  List, [], ◌∷◌, ◌++◌, leb, ltb, if◌then◌else◌,
}
use coffee_buddy.Text.{Text}

-- The bytes of a code point.
unfoldable pub utf8_char : ℕ → List ℕ
utf8_char c =
    if ltb c 128
    then c ∷ []
    else if ltb c 2048
    then (192 + c / 64) ∷ (128 + c % 64) ∷ []
    else if ltb c 65536
    then (224 + c / 4096) ∷ (128 + c / 64 % 64) ∷ (128 + c % 64) ∷ []
    else (240 + c / 262144) ∷ (128 + c / 4096 % 64) ∷ (128 + c / 64 % 64) ∷ (128 + c % 64) ∷ []

-- A surrogate has no encoding.
abbrev pub is_surrogate : ℕ → Bool
is_surrogate c = leb 55296 c && leb c 57343

abbrev pub encoded_char : ℕ → Option (List ℕ) → Option (List ℕ)
encoded_char c none = none
encoded_char c (some rest) = if is_surrogate c then none else some (utf8_char c ++ rest)

-- `text.encode()`; `none` is its `UnicodeEncodeError`.
unfoldable pub encode : Text → Option (List ℕ)
encode [] = some []
encode (c ∷ cs) = encoded_char c (encode cs)

-- Between two characters, or within one: the bytes that are to come, the bits so far, and the least
-- code point that needs so many bytes.
pub data Decoding : Type 0 where
  between : Decoding
  within : (to_come bits least : ℕ) → Decoding

-- What a byte does: it ends a character, goes on with one, or is refused.
pub data Read : Type 0 where
  char : ℕ → Read
  more : Decoding → Read
  refused : Read

abbrev pub lead : ℕ → Read
lead b =
    if ltb b 128
    then char b
    else if leb 192 b && ltb b 224
    then more (within 0 (b - 192) 128)
    else if leb 224 b && ltb b 240
    then more (within 1 (b - 224) 2048)
    else if leb 240 b && ltb b 248
    then more (within 2 (b - 240) 65536)
    else refused

-- The last byte of a character
abbrev pub last : (c least : ℕ) → Read
last c least = if leb least c && ltb c 1114112 && not (is_surrogate c) then char c else refused

abbrev pub follow : (to_come bits least b : ℕ) → Read
follow zero bits least b =
    if leb 128 b && ltb b 192 then last (bits * 64 + (b - 128)) least else refused
follow (suc n) bits least b =
    if leb 128 b && ltb b 192 then more (within n (bits * 64 + (b - 128)) least) else refused

unfoldable pub read : Decoding → ℕ → Read
read between b = lead b
read (within to_come bits least) b = follow to_come bits least b

abbrev pub with_char : ℕ → Option Text → Option Text
with_char c none = none
with_char c (some cs) = some (c ∷ cs)

-- What is read, with what the rest of the bytes gives.
abbrev pub after_read : Read → (Decoding → Option Text) → Option Text
after_read (char c) rest = with_char c (rest between)
after_read (more d) rest = rest d
after_read refused rest = none

unfoldable pub decode_from : List ℕ → Decoding → Option Text
unfolding read
decode_from [] between = some []
decode_from [] (within to_come bits least) = none
decode_from (b ∷ bs) d = after_read (read d b) (λ next. decode_from bs next)

-- `data.decode()`; `none` is its `UnicodeDecodeError`.
unfoldable pub decode : List ℕ → Option Text
unfolding decode_from
decode bs = decode_from bs between
