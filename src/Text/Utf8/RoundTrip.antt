-- ===== src/Text/Utf8/RoundTrip.antt =====
-- Decoding what was encoded.
use coffee_buddy.Prelude.{
  ℕ, suc, ◌+◌, ◌*◌, ◌/◌, ◌%◌, ◌≤◌, ◌<◌, ◌≡◌, refl, ap, ◌∙◌, false, some, List, [], ◌∷◌, ◌++◌, ltb,
  arith, All, Bool-cases, inl, inr,
}
use coffee_buddy.Text.{Text}
use coffee_buddy.Text.Utf8.{
  utf8_char, is_surrogate, encode, decode, decode_from, read, between, within, char, more,
  with_char, lead, follow,
}

-- A text that can be encoded.
abbrev pub IsEncodable : Text → Type 0
IsEncodable = All (λ c. (c < 1114112) × (is_surrogate c ≡ false))

lead-ascii : (c : ℕ) → c < 128 → lead c ≡ char c
lead-ascii c h = ground arith

lead-two : (n : ℕ) → n < 32 → lead (192 + n) ≡ more (within 0 n 128)
lead-two n h = ground arith

lead-three : (n : ℕ) → n < 16 → lead (224 + n) ≡ more (within 1 n 2048)
lead-three n h = ground arith

lead-four : (n : ℕ) → n < 8 → lead (240 + n) ≡ more (within 2 n 65536)
lead-four n h = ground arith

follow-more :
    (k bits least n next : ℕ)
    → n < 64
    → next ≡ bits * 64 + n
    → follow (suc k) bits least (128 + n) ≡ more (within k next least)
follow-more k bits least n next h e = ground arith

follow-last :
    (bits least n c : ℕ)
    → n < 64
    → c ≡ bits * 64 + n
    → least ≤ c
    → c < 1114112
    → is_surrogate c ≡ false
    → follow 0 bits least (128 + n) ≡ char c
follow-last bits least n c h e small large s = ground arith

pub decode_from-utf8_char :
    (c : ℕ) (bs : List ℕ)
    → c < 1114112
    → is_surrogate c ≡ false
    → decode_from (utf8_char c ++ bs) between ≡ with_char c (decode_from bs between)
unfolding decode_from read utf8_char
decode_from-utf8_char c bs h s = elim (Bool-cases (ltb c 128)) [
  | inl a ↦ rw a (rw (lead-ascii c (ground arith)) refl)
  | inr a ↦ elim (Bool-cases (ltb c 2048)) [
    | inl b ↦
        rw (a, b)
          (rw
            (
              lead-two (c / 64) (ground arith),
              follow-last (c / 64) 128 (c % 64) c (omega arith) (omega arith) (ground arith) h s,
            )
            refl)
    | inr b ↦ elim (Bool-cases (ltb c 65536)) [
      | inl d ↦
          rw (a, b, d)
            (rw
              (
                lead-three (c / 4096) (ground arith),
                follow-more 0 (c / 4096) 2048 (c / 64 % 64) (c / 64) (omega arith) (omega arith),
                follow-last (c / 64) 2048 (c % 64) c (omega arith) (omega arith) (ground arith) h s,
              )
              refl)
      | inr d ↦
          rw (a, b, d)
            (rw
              (
                lead-four (c / 262144) (ground arith),
                follow-more 1 (c / 262144) 65536 (c / 4096 % 64) (c / 4096) (omega arith)
                    (omega arith),
                follow-more 0 (c / 4096) 65536 (c / 64 % 64) (c / 64) (omega arith) (omega arith),
                follow-last (c / 64) 65536 (c % 64) c (omega arith) (omega arith) (ground arith) h
                    s,
              )
              refl)
    ]
  ]
]

-- What was encoded is decoded to the same text, and every text without surrogates is encoded.
pub decode-encode :
    (t : Text) → IsEncodable t → (bs : List ℕ) × (encode t ≡ some bs) × (decode bs ≡ some t)
unfolding encode decode decode_from
decode-encode [] h = ([], refl, refl)
decode-encode (c ∷ cs) h =
    let (bs, e, d) = decode-encode cs h.1 in
    (
      utf8_char c ++ bs,
      rw (e, h.0.1) refl,
      decode_from-utf8_char c bs h.0.0 h.0.1 ∙ ap (with_char c) d,
    )
