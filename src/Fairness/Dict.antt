-- ===== src/Fairness/Dict.antt =====
-- The dictionary of statistics, keyed by the text of a user's identifier.
use mathlib.Core.Path.{subst}
use coffee_buddy.Prelude.{
  ℕ, ◌<◌, ◌^◌, ◌≡◌, sym, ap, true, false, some, List, [], ◌∷◌, inl, inr, arith, All, Bool-cases,
  is_some, length, ◌==◌,
}
use coffee_buddy.Text.{Text, text_eq, text_eq_iff, text_eq_refl}
use coffee_buddy.Uuid.{to_text, of_text}
use coffee_buddy.Uuid.RoundTrip.{of_text-to_text}
use coffee_buddy.Schema.{RunnerStat}
use coffee_buddy.Fairness.Selector.{Stats, get_stat, put_stat, by_user, values}

-- The 128-bit integers, of which every UUID is one.
abbrev pub IsUuid : ℕ → Type 0
IsUuid u = u < 2 ^ 128

pub to_text-injective : (a b : ℕ) → IsUuid a → IsUuid b → to_text a ≡ to_text b → a ≡ b
to_text-injective a b ha hb e = cc (of_text-to_text a ha, of_text-to_text b hb, ap of_text e)

pub text_eq-to_text : (a b : ℕ) → IsUuid a → IsUuid b → text_eq (to_text a) (to_text b) ≡ (a == b)
text_eq-to_text a b ha hb =
    ground (arith, text_eq_iff (to_text a) (to_text b), to_text-injective a b ha hb)

-- What holds of every entry.
abbrev pub AllEntries : (Text → RunnerStat → Type 0) → Stats → Type 0
AllEntries P = All (λ e. P e.0 e.1)

module _ (P : Text → RunnerStat → Type 0) where
  pub put_stat-AllEntries :
      (k : Text) (v : RunnerStat) (d : Stats)
      → P k v
      → AllEntries P d
      → AllEntries P (put_stat k v d)
  unfolding put_stat
  put_stat-AllEntries k v [] h hs = (h, tt)
  put_stat-AllEntries k v ((j, st) ∷ d) h hs = elim (Bool-cases (text_eq j k)) [
    | inl same ↦ rw same (subst (λ x. P x v) (sym ((text_eq_iff j k).0 same)) h, hs.1)
    | inr other ↦ rw other (hs.0, put_stat-AllEntries k v d h hs.1)
  ]

  pub by_user-AllEntries :
      (d : Stats) (rows : List RunnerStat)
      → AllEntries P d
      → All (λ st. P (to_text st.user_id) st) rows
      → AllEntries P (by_user d rows)
  unfolding by_user
  by_user-AllEntries d [] hs h = hs
  by_user-AllEntries d (st ∷ rows) hs h =
      by_user-AllEntries (put_stat (to_text st.user_id) st d) rows
        (put_stat-AllEntries (to_text st.user_id) st d h.0 hs) h.1

  pub get_stat-AllEntries :
      (k : Text) (d : Stats) (st : RunnerStat) → AllEntries P d → get_stat k d ≡ some st → P k st
  unfolding get_stat
  get_stat-AllEntries k [] st hs e = absurd (cc)
  get_stat-AllEntries k ((j, v) ∷ d) st hs e = elim (Bool-cases (text_eq j k)) [
    | inl same ↦
        let e' : v ≡ st = ground arith in
        subst (λ x. P k x) e' (subst (λ x. P x v) ((text_eq_iff j k).0 same) hs.0)
    | inr other ↦ get_stat-AllEntries k d st hs.1 (rw other at e)
  ]

-- What holds of all the values holds of each that a key finds.
pub All-get_stat :
    (P : RunnerStat → Type 0) (k : Text) (d : Stats) (st : RunnerStat)
    → All P (values d)
    → get_stat k d ≡ some st
    → P st
unfolding get_stat
All-get_stat P k [] st hs e = absurd (cc)
All-get_stat P k ((j, v) ∷ d) st hs e = elim (Bool-cases (text_eq j k)) [
  | inl same ↦ let e' : v ≡ st = ground arith in subst P e' hs.0
  | inr other ↦ All-get_stat P k d st hs.1 (rw other at e)
]

-- A key that is there stays there, and so is the key that is written.
pub has-put_stat :
    (j k : Text) (v : RunnerStat) (d : Stats)
    → is_some (get_stat j d) ≡ true
    → is_some (get_stat j (put_stat k v d)) ≡ true
unfolding get_stat put_stat
has-put_stat j k v [] h = cc
has-put_stat j k v ((i, st) ∷ d) h = ground (arith, has-put_stat j k v d)

pub has-put_stat_self :
    (k : Text) (v : RunnerStat) (d : Stats) → is_some (get_stat k (put_stat k v d)) ≡ true
unfolding get_stat put_stat
has-put_stat_self k v [] = rw (text_eq_refl k)
has-put_stat_self k v ((i, st) ∷ d) = ground (arith, has-put_stat_self k v d, text_eq_iff i k)

has-by_user :
    (j : Text) (d : Stats) (rows : List RunnerStat)
    → is_some (get_stat j d) ≡ true
    → is_some (get_stat j (by_user d rows)) ≡ true
unfolding by_user
has-by_user j d [] h = h
has-by_user j d (st ∷ rows) h =
    has-by_user j (put_stat (to_text st.user_id) st d) rows (has-put_stat j _ st d h)

-- Every row is found by the text of its user.
pub has-by_user_row :
    (d : Stats) (rows : List RunnerStat)
    → All (λ st. is_some (get_stat (to_text st.user_id) (by_user d rows)) ≡ true) rows
unfolding by_user
has-by_user_row d [] = tt
has-by_user_row d (st ∷ rows) = (
  has-by_user (to_text st.user_id) _ rows (has-put_stat_self (to_text st.user_id) st d),
  has-by_user_row (put_stat (to_text st.user_id) st d) rows,
)

-- Two keys that are there are two entries.
pub two_entries :
    (j k : Text) (d : Stats)
    → is_some (get_stat j d) ≡ true
    → is_some (get_stat k d) ≡ true
    → text_eq j k ≡ false
    → 1 < length (values d)
unfolding get_stat
two_entries j k [] h h' e = cc
two_entries j k ((i, st) ∷ []) h h' e =
    ground (arith, text_eq_iff i j, text_eq_iff i k, text_eq_iff j k)
two_entries j k (x ∷ y ∷ d) h h' e = omega arith

pub All-values :
    (P : RunnerStat → Type 0) (d : Stats) → AllEntries (λ k st. P st) d → All P (values d)
All-values P [] h = tt
All-values P (e ∷ d) h = (h.0, All-values P d h.1)
