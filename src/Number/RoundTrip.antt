-- ===== src/Number/RoundTrip.antt =====
-- `int(str(z))` is `z`.
use coffee_buddy.Prelude.{
  ℕ, zero, suc, ◌+◌, ◌-◌, ◌*◌, ◌/◌, ◌%◌, ◌≤◌, ◌<◌, ◌≡◌, refl, ◌∙◌, Bool, true, false, some, [], ◌∷◌,
  ◌++◌, arith, ltb, All, All-append, Bool-cases, inl, inr,
}
use coffee_buddy.Text.{Text, strip, strip_by, trim_start, trim_end, is_space}
use coffee_buddy.Number.{
  ℤ, pos, negsuc, digits, nat_text, int_text, read_digits, signed, int_of_text,
}

-- The text is made of digits.
abbrev IsDigits : Text → Type 0
IsDigits = All (λ c. (b'0' ≤ c) × (c ≤ b'9'))

digits-IsDigits : (fuel n : ℕ) → IsDigits (digits fuel n)
unfolding digits
digits-IsDigits zero n = tt
digits-IsDigits (suc fuel) n = elim (Bool-cases (ltb n 10)) [
  | inl e ↦ rw e ((omega arith, omega arith), tt)
  | inr e ↦ rw e (
      All-append _ (digits fuel (n / 10)) _ (digits-IsDigits fuel (n / 10))
        ((omega arith, omega arith), tt))
]

-- Reading past the first digits of a text.
read_digits-append :
    (xs : Text) (c acc : ℕ) (b : Bool)
    → IsDigits xs
    → (b'0' ≤ c) × (c ≤ b'9')
    → (v : ℕ) → read_digits b acc xs ≡ some v
    → read_digits b acc (xs ++ c ∷ []) ≡ some (v * 10 + (c - b'0'))
unfolding read_digits
read_digits-append [] c acc b h k v e = ground arith
read_digits-append (x ∷ xs) c acc b h k v e =
    ground (arith, h.0, read_digits-append xs c (acc * 10 + (x - b'0')) true h.1 k v)

read_digits-digits : (fuel n : ℕ) → n < fuel → read_digits false 0 (digits fuel n) ≡ some n
unfolding digits
read_digits-digits zero n h = absurd (omega arith)
read_digits-digits (suc fuel) n h = elim (Bool-cases (ltb n 10)) [
  | inl e ↦ rw e (unfold read_digits in ground arith)
  | inr e ↦ rw e (
      read_digits-append (digits fuel (n / 10)) (b'0' + n % 10) 0 false
        (digits-IsDigits fuel (n / 10)) (omega arith, omega arith) (n / 10)
        (read_digits-digits fuel (n / 10) (ground arith))
      ∙ ground arith)
]

nat_text-digits : (n : ℕ) → read_digits false 0 (nat_text n) ≡ some n
unfolding nat_text
nat_text-digits n = read_digits-digits (suc n) n (omega arith)

nat_text-IsDigits : (n : ℕ) → IsDigits (nat_text n)
unfolding nat_text
nat_text-IsDigits n = digits-IsDigits (suc n) n

-- A text without white space is what is left when it is stripped.
abbrev pub NoSpace : Text → Type 0
NoSpace = All (λ c. is_space c ≡ false)

trim_end-NoSpace : (t : Text) → NoSpace t → trim_end is_space t ≡ t
unfolding trim_end
trim_end-NoSpace [] h = refl
trim_end-NoSpace (c ∷ cs) h = ground (arith, h.0, trim_end-NoSpace cs h.1)

pub strip-NoSpace : (t : Text) → NoSpace t → strip t ≡ t
unfolding strip strip_by trim_start
strip-NoSpace [] h = refl
strip-NoSpace (c ∷ cs) h = rw h.0 (trim_end-NoSpace (c ∷ cs) h)

IsDigits-NoSpace : (t : Text) → IsDigits t → NoSpace t
unfolding is_space
IsDigits-NoSpace [] h = tt
IsDigits-NoSpace (c ∷ cs) h = (ground arith, IsDigits-NoSpace cs h.1)

int_text-NoSpace : (z : ℤ) → NoSpace (int_text z)
int_text-NoSpace (pos n) = IsDigits-NoSpace (nat_text n) (nat_text-IsDigits n)
int_text-NoSpace (negsuc n) = (
  unfold is_space in ground arith,
  IsDigits-NoSpace (nat_text (suc n)) (nat_text-IsDigits (suc n)),
)

signed-digits :
    (t : Text) (n : ℕ) → IsDigits t → read_digits false 0 t ≡ some n → signed t ≡ some (pos n)
unfolding signed
signed-digits [] n h e = absurd (unfold read_digits in (cc))
signed-digits (c ∷ cs) n h e = ground (arith, h.0)

signed-int_text : (z : ℤ) → signed (int_text z) ≡ some z
unfolding signed
signed-int_text (pos n) = signed-digits (nat_text n) n (nat_text-IsDigits n) (nat_text-digits n)
signed-int_text (negsuc n) = rw (nat_text-digits (suc n)) (ground arith)

pub int_of_text-int_text : (z : ℤ) → int_of_text (int_text z) ≡ some z
unfolding int_of_text
int_of_text-int_text z = rw (strip-NoSpace (int_text z) (int_text-NoSpace z)) (signed-int_text z)
