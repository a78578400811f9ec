-- ===== src/Slack/Parsers/Bounds.antt =====
-- What every pickup time and note that is parsed is like.
use coffee_buddy.Prelude.{
  ℕ, ◌≤◌, ◌≡◌, refl, sym, ◌∙◌, inl, inr, true, Option, none, some, is_some, List, [], ◌∷◌, leb,
  length, if◌then◌else◌, arith, Bool-cases,
}
use mathlib.Core.Path.{subst}
use coffee_buddy.Effects.{Result, ok, raised}
use coffee_buddy.Text.{Text, strip}
use coffee_buddy.Number.{ℤ, pos, negsuc, int_of_text}
use coffee_buddy.Time.{DateTime}
use coffee_buddy.Slack.Models.{RunCommandOptions}
use coffee_buddy.Slack.Shlex.{ShlexError, split}
use coffee_buddy.Slack.Parsers.{
  cut, has_clock_shape, two_parts, time_today, clock_time, with_utc, parse_pickup_time, is_pickup,
  is_note, parse_command_text, parse_normalized, no_options, note_message,
}
use coffee_buddy.Slack.Parsers.Options.{
  Reading, nothing, time, note, complaint, chosen_time, reading_of, reading, then_time, then_note,
  last_time, last_note, complaints, listed, from_tokens_lem,
}

-- A time with a time zone
abbrev pub HasZone : Option DateTime → Type 0
HasZone none = Unit
HasZone (some t) = is_some t.tzinfo ≡ true

-- A note of at most 120 characters
abbrev pub IsShort : Option Text → Type 0
IsShort none = Unit
IsShort (some n) = length n ≤ 120

abbrev pub IsFit : RunCommandOptions → Type 0
IsFit o = HasZone o.pickup_time × IsShort o.pickup_note

abbrev Fits : Reading → Type 0
Fits r = HasZone (then_time r none) × IsShort (then_note r none)

time_today-HasZone : (now : ℕ) (h m : Option ℤ) → HasZone (time_today now h m)
time_today-HasZone now (some (pos h)) (some (pos m)) = ground arith
time_today-HasZone now (some (pos h)) (some (negsuc m)) = tt
time_today-HasZone now (some (pos h)) none = tt
time_today-HasZone now (some (negsuc h)) m = tt
time_today-HasZone now none m = tt

clock_time-HasZone : (now : ℕ) (p : Option (Text × Text)) → HasZone (clock_time now p)
clock_time-HasZone now none = tt
clock_time-HasZone now (some (h, m)) = time_today-HasZone now (int_of_text h) (int_of_text m)

with_utc-HasZone : (d : Option DateTime) → HasZone (with_utc d)
with_utc-HasZone none = tt
with_utc-HasZone (some d) = ground arith

short-Fits : (n : Text) → Fits (if leb (length n) 120 then note n else complaint note_message)
short-Fits n = elim (Bool-cases (leb (length n) 120)) [
  | inl e ↦ rw e (tt, ground arith)
  | inr e ↦ rw e (tt, tt)
]

IsFit-ok :
    {E : Type 0} (r : Result E RunCommandOptions) (p o : RunCommandOptions)
    → r ≡ ok p
    → IsFit p
    → r ≡ ok o
    → IsFit o
IsFit-ok r p o e f g = subst (λ q. elim q [ ok x ↦ IsFit x | raised x ↦ Unit ]) (sym e ∙ g) f

module _ (lower : Text → Text) (fromisoformat : Text → Option DateTime) (now : ℕ) where
  parse_pickup_time-HasZone :
      (value : Text) → HasZone (parse_pickup_time lower fromisoformat now value)
  unfolding parse_pickup_time
  parse_pickup_time-HasZone value = elim (Bool-cases (has_clock_shape value)) [
    | inl e ↦ rw e (clock_time-HasZone now (two_parts value))
    | inr e ↦ rw e (with_utc-HasZone (fromisoformat value))
  ]

  chosen_time-Fits : (t : Option DateTime) → HasZone t → Fits (chosen_time t)
  chosen_time-Fits none h = (tt, tt)
  chosen_time-Fits (some t) h = (h, tt)

  reading_of-Fits : (c : Option (Text × Text)) → Fits (reading_of lower fromisoformat now c)
  reading_of-Fits none = (tt, tt)
  reading_of-Fits (some (key, value)) = elim (Bool-cases (is_pickup (lower key))) [
    | inl p ↦ rw p (
        chosen_time-Fits (parse_pickup_time lower fromisoformat now (strip value))
          (parse_pickup_time-HasZone (strip value)))
    | inr p ↦ elim (Bool-cases (is_note (lower key))) [
      | inl q ↦ rw (p, q) (short-Fits (strip value))
      | inr q ↦ rw (p, q) (tt, tt)
    ]
  ]

  kept :
      (r : Reading) (t : Option DateTime) (n : Option Text)
      → Fits r
      → HasZone t
      → IsShort n
      → HasZone (then_time r t) × IsShort (then_note r n)
  kept nothing t n f h k = (h, k)
  kept (time u) t n f h k = (f.0, k)
  kept (note m) t n f h k = (h, f.1)
  kept (complaint m) t n f h k = (h, k)

  last-IsFit :
      (ts : List Text) (t : Option DateTime) (n : Option Text)
      → HasZone t
      → IsShort n
      → HasZone (last_time lower fromisoformat now t ts)
        × IsShort (last_note lower fromisoformat now n ts)
  unfolding reading
  last-IsFit [] t n h k = (h, k)
  last-IsFit (w ∷ ws) t n h k =
      let f =
        kept (reading_of lower fromisoformat now (cut b'=' w)) t n (reading_of-Fits (cut b'=' w)) h
          k in
      last-IsFit ws (then_time (reading lower fromisoformat now w) t)
        (then_note (reading lower fromisoformat now w) n) f.0 f.1

  -- Whatever the text: the pickup time that is parsed from it has a time zone, and the note at most
  -- 120 characters.
  pub parse_command_text-IsFit :
      (text : Text) (o : RunCommandOptions)
      → parse_command_text lower fromisoformat now text ≡ ok o
      → IsFit o
  unfolding parse_command_text
  parse_command_text-IsFit text o e = of_normalized (strip text) e
    where
      of_split :
          (c : ℕ) (cs : Text) (r : Result ShlexError (List Text))
          → split (c ∷ cs) ≡ r
          → parse_normalized lower fromisoformat now (c ∷ cs) ≡ ok o
          → IsFit o
      of_split c cs (raised f) d g = absurd (cc)
      of_split c cs (ok ts) d g =
          IsFit-ok (parse_normalized lower fromisoformat now (c ∷ cs))
            (record {
              pickup_time = last_time lower fromisoformat now none ts;
              pickup_note = last_note lower fromisoformat now none ts;
              errors = listed (complaints lower fromisoformat now ts);
            })
            o (rw d (from_tokens_lem lower fromisoformat now ts)) (last-IsFit ts none none tt tt) g

      of_normalized : (t : Text) → parse_normalized lower fromisoformat now t ≡ ok o → IsFit o
      of_normalized [] g =
          IsFit-ok (parse_normalized lower fromisoformat now []) no_options o refl (tt, tt) g
      of_normalized (c ∷ cs) g = of_split c cs (split (c ∷ cs)) refl g
