-- ===== src/Number.antt =====
-- Python's `int`, and its text in base 10.
pub mod RoundTrip
use coffee_buddy.Prelude.{
  ℕ, zero, suc, ◌+◌, ◌-◌, ◌*◌, ◌/◌, ◌%◌, ◌≤◌, ◌<◌, ◌≡◌, Bool, true, false, not, ◌&&◌, ◌||◌, Option,
  none, some, List, [], ◌∷◌, ◌++◌, arith, ltb, leb, ◌==◌, if◌then◌else◌, length,
}
use coffee_buddy.Text.{Text, strip, is_empty}

-- `negsuc n` is -(n + 1).
pub data ℤ : Type 0 where
  pos negsuc : ℕ → ℤ

-- An integer is the difference of its two parts, one of which is 0.
abbrev pub pos_part : ℤ → ℕ
pos_part (pos n) = n
pos_part (negsuc n) = 0

abbrev pub neg_part : ℤ → ℕ
neg_part (pos n) = 0
neg_part (negsuc n) = suc n

abbrev pub sub_ℕ : ℕ → ℕ → ℤ
sub_ℕ a b = if leb b a then pos (a - b) else negsuc (b - a - 1)

infixl 65 ◌-ℤ◌
abbrev pub ◌-ℤ◌ : ℤ → ℤ → ℤ
a -ℤ b = sub_ℕ (pos_part a + neg_part b) (neg_part a + pos_part b)

-- `a <= b`
abbrev pub leb_ℤ : ℤ → ℤ → Bool
leb_ℤ a b = leb (pos_part a + neg_part b) (pos_part b + neg_part a)

-- `abs(a)`
abbrev pub abs : ℤ → ℕ
abs a = pos_part a + neg_part a

-- `n * a`
abbrev pub scale : ℕ → ℤ → ℤ
scale n (pos a) = pos (n * a)
scale n (negsuc a) = sub_ℕ 0 (n * suc a)

-- The digits of `str(n)`; a number has at most as many as `fuel` says.
unfoldable pub digits : (fuel n : ℕ) → Text
digits zero n = []
digits (suc fuel) n =
    let rest = digits fuel (n / 10) in (if ltb n 10 then [] else rest) ++ (b'0' + n % 10) ∷ []

-- `str(z)`
unfoldable pub nat_text : ℕ → Text
unfolding digits
nat_text n = digits (suc n) n

abbrev pub int_text : ℤ → Text
int_text (pos n) = nat_text n
int_text (negsuc n) = b'-' ∷ nat_text (suc n)

-- The digits of `int(text)`: single underscores may stand between them.
unfoldable pub read_digits : Bool → ℕ → Text → Option ℕ
read_digits after_digit acc [] = if after_digit then some acc else none
read_digits after_digit acc (c ∷ cs) =
    let skip = read_digits false acc cs in
    let next = read_digits true (acc * 10 + (c - b'0')) cs in
    if leb b'0' c && leb c b'9' then next else if c == b'_' && after_digit then skip else none

abbrev pub negate : Option ℕ → Option ℤ
negate none = none
negate (some n) = some (sub_ℕ 0 n)

abbrev pub as_pos : Option ℕ → Option ℤ
as_pos none = none
as_pos (some n) = some (pos n)

unfoldable pub signed : Text → Option ℤ
unfolding read_digits
signed [] = none
signed (c ∷ cs) =
    if c == b'-'
    then negate (read_digits false 0 cs)
    else if c == b'+'
    then as_pos (read_digits false 0 cs)
    else as_pos (read_digits false 0 (c ∷ cs))

-- `int(text)`; `none` is its `ValueError`. Digits outside ASCII are not read.
unfoldable pub int_of_text : Text → Option ℤ
unfolding signed
int_of_text t = signed (strip t)
