-- ===== src/Uuid/RoundTrip.antt =====
-- `UUID(str(uuid))` is `uuid`.
use Prim.Native.Nat.add
use mathlib.Core.List.{append_assoc}
use native.Mathlib.Nat.{pow-suc, div-add-mod}
use coffee_buddy.Prelude.{
  ℕ, zero, suc, ◌≡◌, refl, ap, ◌∙◌, ◌^◌, ◌<◌, ◌≤◌, ◌+◌, ◌*◌, ◌/◌, ◌%◌, Bool, true, false, some,
  List, [], ◌∷◌, ◌++◌, ◌⊎◌, inl, inr, arith, ◌==◌, length, take, drop, All, All-append, All-map,
  length-append, take-append-drop,
}
use coffee_buddy.Text.{
  Text, is_empty, codes, strip_by, strip, trim_start, trim_end, is_space, remove_all,
}
use coffee_buddy.Uuid.{
  to_text, of_text, dashed, hex_char, hex_value, hex_digits, int_digits, int_hex, bare_hex,
  is_brace,
}

-- A lower-case hexadecimal digit.
abbrev IsHex : ℕ → Type 0
IsHex c = (48 ≤ c) × (c ≤ 57) ⊎ (97 ≤ c) × (c ≤ 102)

hex_char-IsHex : (d : ℕ) → d < 16 → IsHex (hex_char d)
unfolding hex_char
hex_char-IsHex d h = ground arith

hex_digits-IsHex : (n u : ℕ) → All IsHex (hex_digits n u)
unfolding hex_digits
hex_digits-IsHex zero u = tt
hex_digits-IsHex (suc n) u =
    All-append IsHex (hex_digits n (u / 16)) _ (hex_digits-IsHex n (u / 16))
      (hex_char-IsHex (u % 16) (omega arith), tt)

length-hex_digits : (n u : ℕ) → length (hex_digits n u) ≡ n
unfolding hex_digits
length-hex_digits zero u = refl
length-hex_digits (suc n) u =
    length-append (hex_digits n (u / 16)) _ ∙ omega (arith, length-hex_digits n (u / 16))

remove_from_absent :
    (p : ℕ) (ps t : Text) → All (λ c. (p == c) ≡ false) t → remove_all (p ∷ ps) t ≡ t
unfolding remove_all
remove_from_absent p ps [] h = refl
remove_from_absent p ps (c ∷ cs) h = ground (arith, remove_from_absent p ps cs h.1)

remove_dash :
    (xs ys : Text)
    → All IsHex xs
    → remove_all (codes "-") (xs ++ b'-' ∷ ys) ≡ xs ++ remove_all (codes "-") ys
unfolding remove_all
remove_dash [] ys h = refl
remove_dash (c ∷ cs) ys h = ground (arith, remove_dash cs ys h.1)

strip_by_id : (p : ℕ → Bool) (t : Text) → All (λ c. p c ≡ false) t → strip_by p t ≡ t
unfolding strip_by
strip_by_id p t h = starts t h ∙ ends t h
  where
    starts : (t : Text) → All (λ c. p c ≡ false) t → trim_end p (trim_start p t) ≡ trim_end p t
    starts [] h = refl
    starts (c ∷ cs) h = ground arith

    ends : (t : Text) → All (λ c. p c ≡ false) t → trim_end p t ≡ t
    ends [] h = refl
    ends (c ∷ cs) h = ground (arith, ends cs h.1)

All-take {ℓ κ} : {A : Type ℓ} (P : A → Type κ) (n : ℕ) (xs : List A) → All P xs → All P (take n xs)
All-take P zero xs h = tt
All-take P (suc n) [] h = tt
All-take P (suc n) (x ∷ xs) h = (h.0, All-take P n xs h.1)

All-drop {ℓ κ} : {A : Type ℓ} (P : A → Type κ) (n : ℕ) (xs : List A) → All P xs → All P (drop n xs)
All-drop P zero xs h = h
All-drop P (suc n) [] h = tt
All-drop P (suc n) (x ∷ xs) h = All-drop P n xs h.1

drop-nil {ℓ} : {A : Type ℓ} (n : ℕ) → drop {A = A} n [] ≡ []
drop-nil zero = refl
drop-nil (suc n) = refl

drop-drop {ℓ} : {A : Type ℓ} (n m : ℕ) (xs : List A) → drop m (drop n xs) ≡ drop (n + m) xs
drop-drop n m [] = rw (drop-nil n, drop-nil m, drop-nil (n + m))
drop-drop zero m (x ∷ xs) = rw add.zero
drop-drop (suc n) m (x ∷ xs) = rw add.suc (drop-drop n m xs)

hex_value-hex_char : (d : ℕ) → d < 16 → hex_value (hex_char d) ≡ some d
unfolding hex_char hex_value
hex_value-hex_char d h = ground arith

hex_char-ne-underscore : (d : ℕ) → d < 16 → (hex_char d == b'_') ≡ false
unfolding hex_char
hex_char-ne-underscore d h = ground arith

int_digits-hex_char :
    (after : Bool) (acc d : ℕ) (rest : Text)
    → d < 16
    → int_digits after acc (hex_char d ∷ rest) ≡ int_digits true (acc * 16 + d) rest
unfolding int_digits
int_digits-hex_char after acc d rest h = rw (hex_char-ne-underscore d h, hex_value-hex_char d h)

regroup : (acc p u : ℕ) → (acc * p + u / 16) * 16 + u % 16 ≡ acc * (p * 16) + u
regroup acc p u = grind (arith, div-add-mod)

int_digits-hex_digits :
    (n : ℕ) (after : Bool) (acc u d : ℕ) (rest : Text)
    → u < 16 ^ n
    → d < 16
    → int_digits after acc (hex_digits n u ++ hex_char d ∷ rest)
      ≡ int_digits true ((acc * 16 ^ n + u) * 16 + d) rest
unfolding hex_digits
int_digits-hex_digits zero after acc u d rest h k =
    let e : acc * 16 ^ 0 + u ≡ acc = omega arith in rw e (int_digits-hex_char after acc d rest k)
int_digits-hex_digits (suc n) after acc u d rest h k = rw append_assoc (
    int_digits-hex_digits n after acc (u / 16) (u % 16) (hex_char d ∷ rest)
      (omega (arith, pow-suc 16 n)) (omega arith)
    ∙ int_digits-hex_char true _ d rest k
    ∙ ap (λ v. int_digits true (v * 16 + d) rest) (regroup acc (16 ^ n) u ∙ rw (← pow-suc)))

int_hex-eq-int_digits : (t : Text) → All IsHex t → int_hex t ≡ int_digits false 0 t
unfolding int_hex
int_hex-eq-int_digits [] h = refl
int_hex-eq-int_digits (c ∷ []) h = ground arith
int_hex-eq-int_digits (c ∷ b ∷ t) h = ground arith

int_digits-hex_32 : (u : ℕ) → u < 2 ^ 128 → int_digits false 0 (hex_digits 32 u) ≡ some u
unfolding hex_digits
int_digits-hex_32 u h =
    int_digits-hex_digits 31 false 0 (u / 16) (u % 16) [] (omega arith) (omega arith)
    ∙ (unfold int_digits in ap some (omega arith))

All-dashed : (P : ℕ → Type 0) (h : Text) → P b'-' → All P h → All P (dashed h)
unfolding dashed
All-dashed P h dash hex = All-append P (take 8 h) _ (All-take P 8 h hex) (
  dash,
  All-append P (take 4 (drop 8 h)) _ (part 8) (
    dash,
    All-append P (take 4 (drop 12 h)) _ (part 12)
        (dash, All-append P (take 4 (drop 16 h)) _ (part 16) (dash, All-drop P 20 h hex)),
  ),
)
  where
    part : (n : ℕ) → All P (take 4 (drop n h))
    part n = All-take P 4 (drop n h) (All-drop P n h hex)

remove_dash-dashed : (h : Text) → All IsHex h → remove_all (codes "-") (dashed h) ≡ h
unfolding dashed
remove_dash-dashed h hex =
    rw
      (
        remove_dash (take 8 h) _ (All-take IsHex 8 h hex),
        remove_dash _ _ (part 8),
        remove_dash _ _ (part 12),
        remove_dash _ _ (part 16),
      )
      (rw
        (
          remove_from_absent b'-' [] (drop 20 h)
              (All-map {P = IsHex} (λ c d. ground arith) _ (All-drop IsHex 20 h hex)),
          rejoin 16,
          rejoin 12,
          rejoin 8,
        )
        (take-append-drop 8 h))
  where
    rejoin : (n : ℕ) → take 4 (drop n h) ++ drop (n + 4) h ≡ drop n h
    rejoin n = rw (← drop-drop n 4 h) (take-append-drop 4 (drop n h))

    part : (n : ℕ) → All IsHex (take 4 (drop n h))
    part n = All-take IsHex 4 (drop n h) (All-drop IsHex n h hex)

-- A hexadecimal digit or a dash.
abbrev IsDigitOrDash : ℕ → Type 0
IsDigitOrDash c = IsHex c ⊎ (c ≡ 45)

bare_hex-dashed : (h : Text) → All IsHex h → bare_hex (dashed h) ≡ h
unfolding bare_hex is_brace
bare_hex-dashed h hex =
    rw
      (
        remove_from_absent b'u' _ (dashed h) (outside (λ c d. ground arith)),
        remove_from_absent b'u' _ (dashed h) (outside (λ c d. ground arith)),
        strip_by_id is_brace (dashed h) (outside (λ c d. ground arith)),
      )
      (remove_dash-dashed h hex)
  where
    outside : {Q : ℕ → Type 0} → ((c : ℕ) → IsDigitOrDash c → Q c) → All Q (dashed h)
    outside f =
        All-map f (dashed h) (All-dashed IsDigitOrDash h (inr refl) (All-map (λ c d. inl d) h hex))

-- The identifiers that the program prints are read back as they were.
pub of_text-to_text : (u : ℕ) → u < 2 ^ 128 → of_text (to_text u) ≡ some u
unfolding of_text to_text strip is_space
of_text-to_text u h =
    rw
      (
        bare_hex-dashed (hex_digits 32 u) (hex_digits-IsHex 32 u),
        length-hex_digits 32 u,
        strip_by_id is_space (hex_digits 32 u) (
            All-map {P = IsHex} {Q = λ c. is_space c ≡ false} (λ c d. ground arith)
              (hex_digits 32 u) (hex_digits-IsHex 32 u)),
      )
      (int_hex-eq-int_digits (hex_digits 32 u) (hex_digits-IsHex 32 u) ∙ int_digits-hex_32 u h)

is_empty-dashed : (h : Text) → is_empty (dashed h) ≡ false
unfolding dashed
is_empty-dashed [] = refl
is_empty-dashed (c ∷ h) = refl

pub is_empty-to_text : (u : ℕ) → is_empty (to_text u) ≡ false
unfolding to_text
is_empty-to_text u = is_empty-dashed (hex_digits 32 u)
