-- ===== src/Slack/Router/Requested.antt =====
-- The run that a request asks for, said of its body.
use coffee_buddy.Prelude.{
  ℕ, ◌+◌, ◌≡◌, refl, sym, ap, ◌∙◌, ◌⊎◌, inl, inr, Bool, true, false, Option, none, some, List, [],
  ◌∷◌, Bool-cases, Option-cases,
}
use coffee_buddy.Effects.{ok}
use coffee_buddy.Text.{Text, codes, text_eq}
use coffee_buddy.Text.Dict.{Dict, lookup, or_else}
use coffee_buddy.Text.Utf8.{decode}
use coffee_buddy.Time.{DateTime, utc}
use coffee_buddy.Slack.Models.{RunCommandOptions, has_errors, Run, RunCreatedEvent}
use coffee_buddy.Slack.Parsers.{parse_command_text}
use coffee_buddy.Slack.Service.{Desk, event_of}
use coffee_buddy.Slack.Service.Handled.{new_run}
use coffee_buddy.Slack.Router.{Library, Request, first_values, command_of, parse_form_payload}

abbrev first_of : Option (Text × List Text) → Text
first_of none = []
first_of (some (v, vs)) = v

-- The first value of a field of a form, or no text.
abbrev pub value_of : Text → Dict (Text × List Text) → Text
value_of key form = first_of (lookup key form)

-- The run has the fields of the form in the request's body, and the options that are read from its
-- field `text`, which has no errors.
pub record IsRequested (library : Library) (request : Request) (d : Desk) (run : Run) : Type 0 where
  pub form : Text
  pub options : RunCommandOptions
  pub decoded : decode request.body ≡ some form
  pub parsed :
      parse_command_text library.lower library.fromisoformat d.connections.clock
        (value_of (codes "text") (library.parse_qs form))
      ≡ ok options
  pub no_errors : (options.errors ≡ none) ⊎ (options.errors ≡ some [])
  pub id : run.id ≡ d.connections.uuid4 d.uuids
  pub correlation_id : run.correlation_id ≡ d.connections.uuid4 (d.uuids + 1)
  pub channel_id : run.channel_id ≡ value_of (codes "channel_id") (library.parse_qs form)
  pub initiator_user_id : run.initiator_user_id ≡ value_of (codes "user_id") (library.parse_qs form)
  pub status : run.status ≡ codes "open"
  pub pickup_time : run.pickup_time ≡ options.pickup_time
  pub pickup_note : run.pickup_note ≡ options.pickup_note
  pub started_at : run.started_at ≡ utc d.connections.clock

-- The event tells of the run.
pub record IsAbout (isoformat : DateTime → Text) (run : Run) (event : RunCreatedEvent)
    : Type 0 where
  pub run_id : event.run_id ≡ run.id
  pub channel_id : event.channel_id ≡ run.channel_id
  pub initiator_user_id : event.initiator_user_id ≡ run.initiator_user_id
  pub pickup_time :
      ((run.pickup_time ≡ none) × (event.pickup_time ≡ none))
      ⊎ ((t : DateTime) × (run.pickup_time ≡ some t) × (event.pickup_time ≡ some (isoformat t)))
  pub pickup_note : event.pickup_note ≡ run.pickup_note
  pub correlation_id : event.correlation_id ≡ run.correlation_id
  pub created_at : event.created_at ≡ isoformat run.started_at

lookup-first_values :
    (key : Text) (form : Dict (Text × List Text))
    → or_else (lookup key (first_values form)) [] ≡ value_of key form
unfolding lookup
lookup-first_values key [] = refl
lookup-first_values key ((k, (v, vs)) ∷ form) = elim (Bool-cases (text_eq k key)) [
  | inl e ↦ rw e refl
  | inr e ↦ rw e (lookup-first_values key form)
]

has_errors-none :
    (options : RunCommandOptions)
    → has_errors options ≡ false
    → (options.errors ≡ none) ⊎ (options.errors ≡ some [])
unfolding has_errors
has_errors-none options h = by_errors options.errors refl h
  where
    by_errors :
        (es : Option (List Text))
        → options.errors ≡ es
        → elim es as (λ _. Bool) [ none ↦ false | some [] ↦ false | some (e ∷ es) ↦ true ] ≡ false
        → (options.errors ≡ none) ⊎ (options.errors ≡ some [])
    by_errors none e k = inl e
    by_errors (some []) e k = inr e
    by_errors (some (x ∷ xs)) e k = absurd (cc)

some-injective : {A : Type 0} {a b : A} → some a ≡ some b → a ≡ b
some-injective {a = a} h = ap (λ o. elim o [ none ↦ a | some x ↦ x ]) h

pub parse_form_payload-some :
    (library : Library) (body : List ℕ) (payload : Dict Text)
    → parse_form_payload library body ≡ some payload
    → (form : Text) × (decode body ≡ some form) × (payload ≡ first_values (library.parse_qs form))
parse_form_payload-some library body payload h = elim (Option-cases (decode body)) [
  | inl e ↦ absurd (cc)
  | inr (form, e) ↦ (form, e, let k = rw (e, parse_form_payload) at h in sym (some-injective k))
]

-- What the service stores is what the request asks for.
pub new_run-IsRequested :
    (library : Library) (request : Request) (d : Desk) (form : Text) (payload : Dict Text)
    (options : RunCommandOptions)
    → decode request.body ≡ some form
    → payload ≡ first_values (library.parse_qs form)
    → parse_command_text library.lower library.fromisoformat d.connections.clock
        (command_of payload).text
      ≡ ok options
    → has_errors options ≡ false
    → IsRequested library request d (new_run d (command_of payload) options)
new_run-IsRequested library request d form payload options decoded same parsed fine = record {
  form = form;
  options = options;
  decoded = decoded;
  parsed =
      ap (parse_command_text library.lower library.fromisoformat d.connections.clock)
        (sym (value (codes "text")))
      ∙ parsed;
  no_errors = has_errors-none options fine;
  id = refl;
  correlation_id = refl;
  channel_id = value (codes "channel_id");
  initiator_user_id = value (codes "user_id");
  status = refl;
  pickup_time = refl;
  pickup_note = refl;
  started_at = refl;
}
  where
    value : (key : Text) → or_else (lookup key payload) [] ≡ value_of key (library.parse_qs form)
    value key =
        ap (λ p. or_else (lookup key p) []) same ∙ lookup-first_values key (library.parse_qs form)

pub event_of-IsAbout :
    (isoformat : DateTime → Text) (run : Run) → IsAbout isoformat run (event_of isoformat run)
event_of-IsAbout isoformat run = record {
  run_id = refl;
  channel_id = refl;
  initiator_user_id = refl;
  pickup_time = elim (Option-cases run.pickup_time) [
    | inl e ↦ inl (e, rw e refl)
    | inr (t, e) ↦ inr (t, e, rw e refl)
  ];
  pickup_note = refl;
  correlation_id = refl;
  created_at = refl;
}
