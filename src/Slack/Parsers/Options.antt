-- ===== src/Slack/Parsers/Options.antt =====
-- The options of a command as what its tokens say, one by one.
use coffee_buddy.Prelude.{
  ℕ, ◌≡◌, ◌≢◌, refl, sym, ap, ◌∙◌, inl, inr, true, false, Option, none, some, List, [], ◌∷◌, ◌++◌,
  leb, ltb, length, if◌then◌else◌, arith, Bool-cases,
}
use coffee_buddy.Effects.{ok}
use coffee_buddy.Text.{Text, strip}
use coffee_buddy.Text.Dict.{or_else}
use coffee_buddy.Time.{DateTime}
use coffee_buddy.Slack.Models.{RunCommandOptions}
use coffee_buddy.Slack.Shlex.{split}
use coffee_buddy.Slack.Parsers.{
  cut, parse_pickup_time, is_pickup, is_note, apply_cut, apply_token, apply_tokens,
  parse_command_text, parse_normalized, from_tokens, clear_errors, pickup_time_message,
  note_message, unknown_message, set_pickup_time,
}
use mathlib.Core.List.{append_assoc, append-nil}

-- What one token says.
pub data Reading : Type 0 where
  nothing : Reading
  time : DateTime → Reading
  note : Text → Reading
  complaint : Text → Reading

abbrev pub chosen_time : Option DateTime → Reading
chosen_time none = complaint pickup_time_message
chosen_time (some t) = time t

abbrev pub then_time : Reading → Option DateTime → Option DateTime
then_time nothing t = t
then_time (time u) t = some u
then_time (note n) t = t
then_time (complaint m) t = t

abbrev pub then_note : Reading → Option Text → Option Text
then_note nothing n = n
then_note (time u) n = n
then_note (note m) n = some m
then_note (complaint m) n = n

abbrev pub said : Reading → List Text
said nothing = []
said (time u) = []
said (note n) = []
said (complaint m) = m ∷ []

abbrev options : Option DateTime → Option Text → List Text → RunCommandOptions
options t n es = record { pickup_time = t; pickup_note = n; errors = some es }

abbrev after : Reading → RunCommandOptions → RunCommandOptions
after r o =
    options (then_time r o.pickup_time) (then_note r o.pickup_note) (or_else o.errors [] ++ said r)

-- `None` in place of an empty list
abbrev pub listed : List Text → Option (List Text)
listed [] = none
listed (e ∷ es) = some (e ∷ es)

clear_errors_lem :
    (t : Option DateTime) (n : Option Text) (es : List Text)
    → clear_errors (options t n es)
      ≡ record { pickup_time = t; pickup_note = n; errors = listed es }
clear_errors_lem t n [] = refl
clear_errors_lem t n (e ∷ es) = refl

long_or_note :
    (m : Text) (t : Option DateTime) (n : Option Text) (es : List Text)
    → (if ltb 120 (length m) then options t n (es ++ note_message ∷ []) else options t (some m) es)
      ≡ after (if leb (length m) 120 then note m else complaint note_message) (options t n es)
long_or_note m t n es = elim (Bool-cases (leb (length m) 120)) [
  | inl e ↦ rw (e, short e) (ap (options t (some m)) (sym (append-nil es)))
  | inr e ↦ rw (e, long e) refl
]
  where
    short : leb (length m) 120 ≡ true → ltb 120 (length m) ≡ false
    short e = ground arith

    long : leb (length m) 120 ≡ false → ltb 120 (length m) ≡ true
    long e = ground arith

module _ (lower : Text → Text) (fromisoformat : Text → Option DateTime) (now : ℕ) where
  -- A pickup time that can be read, a note of at most 120 characters, or a complaint; a token
  -- without `=` says nothing.
  abbrev pub reading_of : Option (Text × Text) → Reading
  reading_of none = nothing
  reading_of (some (key, value)) =
      if is_pickup (lower key)
      then chosen_time (parse_pickup_time lower fromisoformat now (strip value))
      else if is_note (lower key)
      then if leb (length (strip value)) 120 then note (strip value) else complaint note_message
      else complaint (unknown_message (lower key))

  unfoldable pub reading : Text → Reading
  reading token = reading_of (cut b'=' token)

  -- The last pickup time, the last note, and all complaints.
  abbrev pub last_time : Option DateTime → List Text → Option DateTime
  last_time t [] = t
  last_time t (w ∷ ws) = last_time (then_time (reading w) t) ws

  abbrev pub last_note : Option Text → List Text → Option Text
  last_note n [] = n
  last_note n (w ∷ ws) = last_note (then_note (reading w) n) ws

  abbrev pub complaints : List Text → List Text
  complaints [] = []
  complaints (w ∷ ws) = said (reading w) ++ complaints ws

  set_pickup_time_lem :
      (r : Option DateTime) (t : Option DateTime) (n : Option Text) (es : List Text)
      → set_pickup_time lower fromisoformat now r (options t n es)
        ≡ after (chosen_time r) (options t n es)
  set_pickup_time_lem none t n es = refl
  set_pickup_time_lem (some u) t n es = ap (options (some u) n) (sym (append-nil es))

  apply_cut_lem :
      (c : Option (Text × Text)) (t : Option DateTime) (n : Option Text) (es : List Text)
      → apply_cut lower fromisoformat now c (options t n es) ≡ after (reading_of c) (options t n es)
  apply_cut_lem none t n es = ap (options t n) (sym (append-nil es))
  apply_cut_lem (some (key, value)) t n es = elim (Bool-cases (is_pickup (lower key))) [
    | inl p ↦
        rw p (set_pickup_time_lem (parse_pickup_time lower fromisoformat now (strip value)) t n es)
    | inr p ↦ elim (Bool-cases (is_note (lower key))) [
      | inl q ↦ rw (p, q) (long_or_note (strip value) t n es)
      | inr q ↦ rw (p, q) refl
    ]
  ]

  apply_tokens_lem :
      (ts : List Text) (t : Option DateTime) (n : Option Text) (es : List Text)
      → apply_tokens lower fromisoformat now ts (options t n es)
        ≡ options (last_time t ts) (last_note n ts) (es ++ complaints ts)
  unfolding apply_tokens apply_token reading
  apply_tokens_lem [] t n es = ap (options t n) (sym (append-nil es))
  apply_tokens_lem (w ∷ ws) t n es =
      ap (apply_tokens lower fromisoformat now ws) (apply_cut_lem (cut b'=' w) t n es)
      ∙ (apply_tokens_lem ws (then_time (reading w) t) (then_note (reading w) n)
            (es ++ said (reading w))
          ∙ ap (options (last_time t (w ∷ ws)) (last_note n (w ∷ ws)))
              (append_assoc es (said (reading w)) (complaints ws)))

  pub from_tokens_lem :
      (ts : List Text)
      → from_tokens lower fromisoformat now (ok ts)
        ≡ ok (record {
          pickup_time = last_time none ts;
          pickup_note = last_note none ts;
          errors = listed (complaints ts);
        })
  from_tokens_lem ts =
      ap (λ o. ok (clear_errors o)) (apply_tokens_lem ts none none [])
      ∙ ap ok (clear_errors_lem (last_time none ts) (last_note none ts) (complaints ts))

  -- Where the text is divided into tokens, the options are the pickup time and the note of the last
  -- tokens that give one, and the complaints about all tokens in their order, or no list of errors.
  pub parse_command_text_lem :
      (text : Text) (ts : List Text)
      → strip text ≢ []
      → split (strip text) ≡ ok ts
      → parse_command_text lower fromisoformat now text
        ≡ ok (record {
          pickup_time = last_time none ts;
          pickup_note = last_note none ts;
          errors = listed (complaints ts);
        })
  unfolding parse_command_text
  parse_command_text_lem text ts h e = of_normalized (strip text) h e
    where
      of_normalized :
          (t : Text)
          → t ≢ []
          → split t ≡ ok ts
          → parse_normalized lower fromisoformat now t
            ≡ ok (record {
              pickup_time = last_time none ts;
              pickup_note = last_note none ts;
              errors = listed (complaints ts);
            })
      of_normalized [] k d = absurd (k refl)
      of_normalized (c ∷ cs) k d = rw d (from_tokens_lem ts)
