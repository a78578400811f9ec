-- ===== src/Slack/Router.antt =====
-- api/slack_runs/router.py, with the dependencies that FastAPI gives its handler.
pub mod Requested
pub mod Stored
use coffee_buddy.Prelude.{
  ℕ, Bool, true, false, Option, none, some, List, [], ◌∷◌, ◌++◌, if◌then◌else◌,
}
use coffee_buddy.Effects.{Result, ok, raised, Exec, pure, raise, lift, some_or, ◌>>=◌, ◌>>◌}
use coffee_buddy.Text.{Text, codes}
use coffee_buddy.Text.Dict.{Dict, lookup, or_else}
use coffee_buddy.Text.Utf8.{decode}
use coffee_buddy.Time.{DateTime}
use coffee_buddy.Slack.Models.{SlackCommandPayload, RunCommandOptions, has_errors, Settings}
use coffee_buddy.Slack.Signature.{
  Rejection, VerifyError, rejected, value_error, unicode_error, type_error, Verifier, new_verifier,
  verify,
}
use coffee_buddy.Slack.Shlex.{ShlexError}
use coffee_buddy.Slack.Parsers.{parse_command_text}
use coffee_buddy.Slack.Messages.{Json, text, object, field, end}
use coffee_buddy.Slack.Service.{Desk, ServiceError, commit_failed, RunEventPublisher, handle}
use coffee_buddy.Slack.Dependencies.{
  DependencyState, DependencyError, no_session_factory, get_settings, get_run_event_publisher,
  with_session,
}

pub record Request : Type 0 where
  pub body : List ℕ
  pub timestamp : Option Text
  pub signature : Option Text

-- The functions of Python's library that stay parameters, and `time.time()` in microseconds.
-- `parse_qs` gives each key with the first of its values and the rest of them.
pub record Library : Type 0 where
  pub hexdigest : (secret message : List ℕ) → Text
  pub lower : Text → Text
  pub fromisoformat : Text → Option DateTime
  pub parse_qs : Text → Dict (Text × List Text)
  pub unix_time : ℕ

-- The `HTTPException` with status 401, and what goes through to the server.
pub data RouteError : Type 0 where
  unauthorized : Rejection → RouteError
  unverified : VerifyError → RouteError
  unicode_failed : RouteError
  shlex_failed : ShlexError → RouteError
  service_failed : ServiceError → RouteError
  dependency_failed : DependencyError → RouteError

abbrev pub Route : Type 0 → Type 0
Route = Exec Desk RouteError

-- `except SlackVerificationError`
abbrev pub verified : Result VerifyError Unit → Result RouteError Unit
verified (ok u) = ok tt
verified (raised (rejected r)) = raised (unauthorized r)
verified (raised value_error) = raised (unverified value_error)
verified (raised unicode_error) = raised (unverified unicode_error)
verified (raised type_error) = raised (unverified type_error)

-- `{key: values[0] for key, values in parsed.items()}`
abbrev pub first_values : Dict (Text × List Text) → Dict Text
first_values [] = []
first_values ((key, (v, vs)) ∷ d) = (key, v) ∷ first_values d

abbrev pub joined : List Text → Text
joined [] = []
joined (e ∷ []) = e
joined (e ∷ f ∷ es) = e ++ (10 ∷ joined (f ∷ es))

abbrev pub ephemeral : (errors : Option (List Text)) → Json
ephemeral errors = object (
    field (codes "response_type") (text (codes "ephemeral"))
      (field (codes "text") (text (joined (or_else errors []))) end))

abbrev pub command_of : Dict Text → SlackCommandPayload
command_of payload = record {
  token = or_else (lookup (codes "token") payload) [];
  team_id = or_else (lookup (codes "team_id") payload) [];
  channel_id = or_else (lookup (codes "channel_id") payload) [];
  channel_name = or_else (lookup (codes "channel_name") payload) [];
  user_id = or_else (lookup (codes "user_id") payload) [];
  user_name = or_else (lookup (codes "user_name") payload) [];
  text = or_else (lookup (codes "text") payload) [];
  trigger_id = or_else (lookup (codes "trigger_id") payload) [];
  response_url = or_else (lookup (codes "response_url") payload) [];
}

abbrev pub or_failed : {E A : Type 0} → (E → RouteError) → Result E A → Result RouteError A
or_failed f (ok a) = ok a
or_failed f (raised e) = raised (f e)

-- A call of the service
abbrev pub served : Result ServiceError Json × Desk → Result RouteError Json × Desk
served (r, d) = (or_failed service_failed r, d)

module _ (library : Library) where
  -- `_parse_form_payload`; `none` is a `UnicodeDecodeError`.
  abbrev pub parse_form_payload : List ℕ → Option (Dict Text)
  parse_form_payload body = elim (decode body) [
    | none ↦ none
    | some t ↦ some (first_values (library.parse_qs t))
  ]

  abbrev pub answer : RunEventPublisher → SlackCommandPayload → RunCommandOptions → Route Json
  answer publisher command options d =
      if has_errors options
      then (ok (ephemeral options.errors), d)
      else served (handle publisher command options d)

  -- From the form on
  abbrev pub options_of : (now : ℕ) → SlackCommandPayload → Result RouteError RunCommandOptions
  options_of now command =
      or_failed shlex_failed
        (parse_command_text library.lower library.fromisoformat now command.text)

  abbrev pub answer_form : RunEventPublisher → Dict Text → Route Json
  answer_form publisher payload d =
      (do
        options ← lift (options_of d.connections.clock (command_of payload))
        answer publisher (command_of payload) options)
        d

  unfoldable pub handle_slack_command : RunEventPublisher → Settings → Request → Route Json
  handle_slack_command publisher settings request d =
      (do
        verifier ←
            some_or unicode_failed (
              new_verifier settings.slack_signing_secret settings.slack_timestamp_tolerance_seconds)
        lift (
            verified (
              verify library.hexdigest verifier library.unix_time request.timestamp
                request.signature request.body))
        payload ← some_or unicode_failed (parse_form_payload request.body)
        answer_form publisher payload)
        d

  -- The handler's dependencies in their order, with the handler inside the session.
  unfoldable pub serve_request : DependencyState → Request → Route Json
  unfolding handle_slack_command
  serve_request state request d = elim state.session_factory [
    | none ↦ (raised (dependency_failed no_session_factory), d)
    | some factory ↦
        with_session factory (service_failed commit_failed)
          (do
            publisher ← lift (or_failed dependency_failed (get_run_event_publisher state))
            settings ← lift (or_failed dependency_failed (get_settings state))
            handle_slack_command publisher settings request)
          d
  ]
