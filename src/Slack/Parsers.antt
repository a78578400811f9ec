-- ===== src/Slack/Parsers.antt =====
-- api/slack_runs/parsers.py. `str.lower` and `datetime.fromisoformat` are parameters.
pub mod Options
pub mod Bounds
use coffee_buddy.Prelude.{
  ℕ, ◌+◌, ◌-◌, ◌*◌, ◌%◌, ◌≡◌, Bool, true, false, ◌&&◌, ◌||◌, not, Option, none, some, List, [], ◌∷◌,
  ◌++◌, ◌==◌, leb, ltb, length, if◌then◌else◌,
}
use coffee_buddy.Effects.{Result, ok, raised}
use coffee_buddy.Text.{Text, codes, text_eq, strip, is_empty}
use coffee_buddy.Text.Dict.{or_else}
use coffee_buddy.Number.{ℤ, pos, negsuc, int_of_text}
use coffee_buddy.Time.{DateTime, utc, minute}
use coffee_buddy.Slack.Models.{RunCommandOptions}
use coffee_buddy.Slack.Shlex.{ShlexError, split}

-- `text.split(separator, 1)` where the separator is in the text
unfoldable pub cut : ℕ → Text → Option (Text × Text)
cut separator [] = none
cut separator (c ∷ cs) =
    let rest = cut separator cs in
    if c == separator
    then some ([], cs)
    else elim rest [ none ↦ none | some (before, after) ↦ some (c ∷ before, after) ]

-- `datetime.combine(today, time(hour, minute, tzinfo=utc))`; `none` is the `ValueError` of `time`.
abbrev pub day : ℕ
day = 24 * 60 * minute

abbrev pub time_today : (now : ℕ) → Option ℤ → Option ℤ → Option DateTime
time_today now (some (pos h)) (some (pos m)) =
    if ltb h 24 && ltb m 60 then some (utc (now - now % day + (h * 60 + m) * minute)) else none
time_today now (some (pos h)) (some (negsuc m)) = none
time_today now (some (pos h)) none = none
time_today now (some (negsuc h)) minutes = none
time_today now none minutes = none

-- `value.split(":")` has two parts.
abbrev pub two_parts : Text → Option (Text × Text)
two_parts value = elim (cut b':' value) [
  | none ↦ none
  | some (h, m) ↦ elim (cut b':' m) [ none ↦ some (h, m) | some more ↦ none ]
]

abbrev pub clock_time : (now : ℕ) → Option (Text × Text) → Option DateTime
clock_time now none = none
clock_time now (some (h, m)) = time_today now (int_of_text h) (int_of_text m)

-- `len(value) == 5 and value[2] == ":"`
abbrev pub has_clock_shape : Text → Bool
has_clock_shape (a ∷ b ∷ c ∷ d ∷ e ∷ []) = c == b':'
has_clock_shape value = false

abbrev pub with_utc : Option DateTime → Option DateTime
with_utc none = none
with_utc (some d) = elim d.tzinfo [ none ↦ some (utc d.ticks) | some offset ↦ some d ]

abbrev pub pickup_time_message : Text
pickup_time_message = codes "pickup_time must be ISO-8601 date-time or HH:MM (24h)."

abbrev pub note_message : Text
note_message = codes "Pickup note must be <= 120 characters."

abbrev pub unknown_message : (key : Text) → Text
unknown_message key = codes "Unknown parameter '" ++ (key ++ codes "'.")

-- `key in {…}`
abbrev pub is_pickup : (key : Text) → Bool
is_pickup key = text_eq key (codes "pickup") || text_eq key (codes "pickup_time")

abbrev pub is_note : (key : Text) → Bool
is_note key = text_eq key (codes "note") || text_eq key (codes "pickup_note")

-- `options.errors.append(message)`, where `options.errors` is a list
abbrev pub append_error : Text → RunCommandOptions → RunCommandOptions
append_error message o = record o { errors = some (or_else o.errors [] ++ message ∷ []) }

-- `if not options.errors: options.errors = None`
abbrev pub clear_errors : RunCommandOptions → RunCommandOptions
clear_errors o = elim o.errors [
  | none ↦ o
  | some [] ↦ record o { errors = none }
  | some (e ∷ es) ↦ o
]

abbrev pub no_options : RunCommandOptions
no_options = record { pickup_time = none; pickup_note = none; errors = some [] }

-- `datetime.now(timezone.utc)` is `now`, the same for all tokens of a command.
module _ (lower : Text → Text) (fromisoformat : Text → Option DateTime) (now : ℕ) where
  -- `none` is a `ValueError`.
  unfoldable pub parse_pickup_time : Text → Option DateTime
  parse_pickup_time value =
      if has_clock_shape value
      then clock_time now (two_parts value)
      else with_utc (fromisoformat value)

  abbrev pub set_pickup_time : Option DateTime → RunCommandOptions → RunCommandOptions
  set_pickup_time none o = append_error pickup_time_message o
  set_pickup_time (some t) o = record o { pickup_time = some t }

  abbrev pub apply_pickup_time : Text → RunCommandOptions → RunCommandOptions
  apply_pickup_time value o = set_pickup_time (parse_pickup_time value) o

  abbrev pub apply_pair : (key value : Text) → RunCommandOptions → RunCommandOptions
  apply_pair key value o =
      if is_pickup key
      then apply_pickup_time value o
      else if is_note key
      then if ltb 120 (length value)
        then append_error note_message o
        else record o { pickup_note = some value }
      else append_error (unknown_message key) o

  abbrev pub apply_cut : Option (Text × Text) → RunCommandOptions → RunCommandOptions
  apply_cut none o = o
  apply_cut (some (key, value)) o = apply_pair (lower key) (strip value) o

  unfoldable pub apply_token : Text → RunCommandOptions → RunCommandOptions
  unfolding cut
  apply_token token o = apply_cut (cut b'=' token) o

  unfoldable pub apply_tokens : List Text → RunCommandOptions → RunCommandOptions
  apply_tokens [] o = o
  apply_tokens (t ∷ ts) o = apply_tokens ts (apply_token t o)

  abbrev pub from_tokens : Result ShlexError (List Text) → Result ShlexError RunCommandOptions
  from_tokens (raised e) = raised e
  from_tokens (ok tokens) = ok (clear_errors (apply_tokens tokens no_options))

  abbrev pub parse_normalized : Text → Result ShlexError RunCommandOptions
  parse_normalized [] = ok no_options
  parse_normalized (c ∷ cs) = from_tokens (split (c ∷ cs))

  -- The `ValueError` of `shlex.split` is not caught.
  unfoldable pub parse_command_text : Text → Result ShlexError RunCommandOptions
  parse_command_text text = parse_normalized (strip text)
