-- ===== src/Text/Strip.antt =====
-- What `str.strip` returns.
use coffee_buddy.Prelude.{ℕ, ◌≡◌, refl, Bool, true, false, [], ◌∷◌, arith, ◌&&◌, if◌then◌else◌}
use coffee_buddy.Text.{Text, is_empty, is_space, trim_start, trim_end, strip_by, strip}

-- The first and the last character, if there are any, fail the test.
abbrev pub StartsOutside : (ℕ → Bool) → Text → Type 0
StartsOutside p [] = Unit
StartsOutside p (c ∷ cs) = p c ≡ false

abbrev pub EndsOutside : (ℕ → Bool) → Text → Type 0
EndsOutside p [] = Unit
EndsOutside p (c ∷ []) = p c ≡ false
EndsOutside p (c ∷ d ∷ cs) = EndsOutside p (d ∷ cs)

module _ (p : ℕ → Bool) where
  trim_start-StartsOutside : (t : Text) → StartsOutside p (trim_start p t)
  unfolding trim_start
  trim_start-StartsOutside [] = tt
  trim_start-StartsOutside (c ∷ cs) = ground (arith, trim_start-StartsOutside cs)

  trim_start_id : (t : Text) → StartsOutside p t → trim_start p t ≡ t
  unfolding trim_start
  trim_start_id [] h = refl
  trim_start_id (c ∷ cs) h = ground arith

  trim_end-StartsOutside : (t : Text) → StartsOutside p t → StartsOutside p (trim_end p t)
  unfolding trim_end
  trim_end-StartsOutside [] h = tt
  trim_end-StartsOutside (c ∷ cs) h = ground arith

  trim_end_idem : (t : Text) → trim_end p (trim_end p t) ≡ trim_end p t
  unfolding trim_end
  trim_end_idem [] = refl
  trim_end_idem (c ∷ cs) = ground (arith, trim_end_idem cs)

  trim_end-EndsOutside : (t : Text) → EndsOutside p (trim_end p t)
  unfolding trim_end
  trim_end-EndsOutside [] = tt
  trim_end-EndsOutside (c ∷ cs) = snoc (p c) (trim_end p cs) refl (trim_end-EndsOutside cs)
    where
      snoc :
          (b : Bool) (rest : Text)
          → p c ≡ b
          → EndsOutside p rest
          → EndsOutside p (if b && is_empty rest then [] else c ∷ rest)
      snoc true [] e h = tt
      snoc false [] e h = e
      snoc true (d ∷ ds) e h = h
      snoc false (d ∷ ds) e h = h

  pub strip_by-StartsOutside : (t : Text) → StartsOutside p (strip_by p t)
  unfolding strip_by
  strip_by-StartsOutside t = trim_end-StartsOutside (trim_start p t) (trim_start-StartsOutside t)

  pub strip_by-EndsOutside : (t : Text) → EndsOutside p (strip_by p t)
  unfolding strip_by
  strip_by-EndsOutside t = trim_end-EndsOutside (trim_start p t)

  -- Stripping twice is stripping once.
  pub strip_by_idem : (t : Text) → strip_by p (strip_by p t) ≡ strip_by p t
  unfolding strip_by
  strip_by_idem t =
      rw (trim_start_id (strip_by p t) (strip_by-StartsOutside t)) (trim_end_idem (trim_start p t))

pub strip_idem : (t : Text) → strip (strip t) ≡ strip t
unfolding strip
strip_idem t = strip_by_idem is_space t
