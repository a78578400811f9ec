-- ===== src/Slack/Router/Stored.antt =====
-- Which requests leave a run behind.
use coffee_buddy.Prelude.{
  ◌≡◌, refl, ap, ◌⊎◌, inl, inr, false, Option, none, some, [], ◌∷◌, ◌++◌, Bool-cases, arith,
}
use coffee_buddy.Effects.{Result, ok, raised, lift, some_or, ◌>>=◌}
use coffee_buddy.Slack.Models.{
  SlackCommandPayload, RunCommandOptions, has_errors, Settings, Run, RunCreatedEvent,
}
use coffee_buddy.Slack.Signature.{
  VerifyError, rejected, value_error, unicode_error, type_error, Verifier, new_verifier,
}
use coffee_buddy.Slack.Signature.Genuine.{IsGenuine, verify-IsGenuine}
use coffee_buddy.Slack.Messages.{Json}
use coffee_buddy.Slack.Service.{
  Desk, ServiceError, commit_failed, SessionFactory, RunEventPublisher, event_of,
}
use coffee_buddy.Slack.Service.Handled.{
  new_run, announced, Handled, not_flushed, not_published, not_shown, created, handle-Handled,
}
use coffee_buddy.Slack.Dependencies.{
  DependencyState, get_settings, get_run_event_publisher, open_session, commit_after, leave,
  with_session,
}
use coffee_buddy.Slack.Router.Requested.{
  IsRequested, IsAbout, parse_form_payload-some, new_run-IsRequested, event_of-IsAbout,
}
use coffee_buddy.Slack.Router.{
  Request, Library, RouteError, unicode_failed, shlex_failed, service_failed, dependency_failed,
  Route, verified, or_failed, served, command_of, ephemeral, parse_form_payload, answer,
  answer_form, options_of, handle_slack_command, serve_request,
}
use mathlib.Core.List.{append-nil}

-- The settings are there, the request is signed with their secret, and its timestamp is fresh.
abbrev pub IsAccepted : Library → DependencyState → Request → Type 0
IsAccepted library state request =
    (settings : Settings) × (v : Verifier) × (state.settings ≡ some settings)
    × (new_verifier settings.slack_signing_secret settings.slack_timestamp_tolerance_seconds
        ≡ some v)
    × IsGenuine library.hexdigest v library.unix_time request.body request.timestamp
        request.signature

-- How the handler leaves the session: it raises, it changes nothing, or it has added one run for an
-- accepted request.
data IsAnswered (library : Library) (state : DependencyState) (request : Request) (d : Desk)
    : Result RouteError Json × Desk → Type 0 where
  failed :
      (e : RouteError) (g : Desk)
      → g.committed ≡ d.committed
      → IsAnswered library state request d (raised e, g)
  refused : (j : Json) → IsAnswered library state request d (ok j, d)
  stored :
      (command : SlackCommandPayload) (options : RunCommandOptions) (j : Json)
      → IsAccepted library state request
      → IsRequested library request d (new_run d command options)
      → IsAnswered library state request d (ok j, announced d (new_run d command options))

module _ (library : Library) (state : DependencyState) (request : Request) (d : Desk) where
  lift-IsAnswered :
      {A : Type 0} (r : Result RouteError A) (f : A → Route Json)
      → ((a : A) → r ≡ ok a → IsAnswered library state request d (f a d))
      → IsAnswered library state request d ((lift r >>= f) d)
  lift-IsAnswered (ok a) f h = h a refl
  lift-IsAnswered (raised e) f h = failed e d refl

  some_or-IsAnswered :
      {A : Type 0} (e : RouteError) (m : Option A) (f : A → Route Json)
      → ((a : A) → m ≡ some a → IsAnswered library state request d (f a d))
      → IsAnswered library state request d ((some_or e m >>= f) d)
  some_or-IsAnswered e (some a) f h = h a refl
  some_or-IsAnswered e none f h = failed e d refl

  verified-ok : (r : Result VerifyError Unit) → verified r ≡ ok tt → r ≡ ok tt
  verified-ok (ok u) h = refl
  verified-ok (raised (rejected r)) h = absurd (cc)
  verified-ok (raised value_error) h = absurd (cc)
  verified-ok (raised unicode_error) h = absurd (cc)
  verified-ok (raised type_error) h = absurd (cc)

  module _ (publisher : RunEventPublisher) (accepted : IsAccepted library state request)
      (command : SlackCommandPayload) (options : RunCommandOptions)
      (requested : has_errors options ≡ false
        → IsRequested library request d (new_run d command options)) where
    served-IsAnswered :
        {s : Result ServiceError Json × Desk}
        → has_errors options ≡ false
        → Handled publisher d (new_run d command options) s
        → IsAnswered library state request d (served s)
    served-IsAnswered fine (not_flushed f) = failed _ _ refl
    served-IsAnswered fine (not_published f p) = failed _ _ refl
    served-IsAnswered fine (not_shown f p e) = failed _ _ refl
    served-IsAnswered fine (created j f p e) = stored command options j accepted (requested fine)

    answer-IsAnswered :
        IsAnswered library state request d (answer library publisher command options d)
    answer-IsAnswered = elim (Bool-cases (has_errors options)) [
      | inl e ↦ rw e (refused (ephemeral options.errors))
      | inr e ↦ rw e (served-IsAnswered e (handle-Handled publisher d command options))
    ]

  or_failed-ok :
      {E A : Type 0} (f : E → RouteError) (r : Result E A) (a : A) → or_failed f r ≡ ok a → r ≡ ok a
  or_failed-ok {E = E} {A = A} f (ok b) a h =
      ap (λ r. elim r as (λ _. Result E A) [ ok x ↦ ok x | raised x ↦ ok b ]) h
  or_failed-ok f (raised e) a h = absurd (cc)

  handle_slack_command-IsAnswered :
      (publisher : RunEventPublisher) (settings : Settings)
      → state.settings ≡ some settings
      → IsAnswered library state request d
          (handle_slack_command library publisher settings request d)
  unfolding handle_slack_command
  handle_slack_command-IsAnswered publisher settings has_settings =
      some_or-IsAnswered _ _ _ λ v made. lift-IsAnswered _ _ λ u is_verified.
        some_or-IsAnswered unicode_failed (parse_form_payload library request.body)
          (answer_form library publisher)
          λ payload parsed.
            let (form, decoded, same) =
              parse_form_payload-some library request.body payload parsed in
            lift-IsAnswered (options_of library d.connections.clock (command_of payload))
              (answer library publisher (command_of payload))
              λ options read.
                answer-IsAnswered publisher
                  (
                    settings,
                    v,
                    has_settings,
                    made,
                    verify-IsGenuine library.hexdigest v library.unix_time request.body
                        request.timestamp request.signature (verified-ok _ is_verified),
                  )
                  (command_of payload) options
                  (new_run-IsRequested library request d form payload options decoded same
                    (or_failed-ok shlex_failed _ options read))

  get_settings-ok : (s : Settings) → get_settings state ≡ ok s → state.settings ≡ some s
  get_settings-ok s h = ground arith

  body-IsAnswered : IsAnswered library state request d (
      (lift (or_failed dependency_failed (get_run_event_publisher state)) >>= λ publisher.
      lift (or_failed dependency_failed (get_settings state)) >>= λ settings.
      handle_slack_command library publisher settings request)
        d)
  body-IsAnswered =
      lift-IsAnswered (or_failed dependency_failed (get_run_event_publisher state)) _ λ publisher p.
        lift-IsAnswered (or_failed dependency_failed (get_settings state))
          (λ settings. handle_slack_command library publisher settings request)
          λ settings s. handle_slack_command-IsAnswered publisher settings (
            get_settings-ok settings
              (or_failed-ok dependency_failed (get_settings state) settings s))

-- What a request leaves: the committed runs stay, or an accepted request has added its run, which
-- is announced.
abbrev pub Leaves :
    Library → DependencyState → Request → Desk → Result RouteError Json × Desk → Type 0
Leaves library state request d outer =
    (outer.1.committed ≡ d.committed)
    ⊎ ((run : Run) × (event : RunCreatedEvent) × (j : Json) × IsAccepted library state request
        × IsRequested library request d run
        × IsAbout d.connections.isoformat run event
        × (outer.0 ≡ ok j)
        × (outer.1.committed ≡ d.committed ++ run ∷ [])
        × (outer.1.published ≡ d.published ++ event ∷ []))

-- A session does not change the clock and the source of identifiers.
of_outer :
    {library : Library} {request : Request} {d : Desk} {run : Run} (factory : SessionFactory)
    → IsRequested library request (open_session factory d) run
    → IsRequested library request d run
of_outer factory q = record {
  form = q.form;
  options = q.options;
  decoded = q.decoded;
  parsed = q.parsed;
  no_errors = q.no_errors;
  id = q.id;
  correlation_id = q.correlation_id;
  channel_id = q.channel_id;
  initiator_user_id = q.initiator_user_id;
  status = q.status;
  pickup_time = q.pickup_time;
  pickup_note = q.pickup_note;
  started_at = q.started_at;
}

leave-Leaves :
    (library : Library) (state : DependencyState) (request : Request) (factory : SessionFactory)
    (d : Desk) {r : Result RouteError Json × Desk}
    → IsAnswered library state request (open_session factory d) r
    → Leaves library state request d (leave (service_failed commit_failed) r)
unfolding commit_after
leave-Leaves library state request factory d (failed e g h) = inl h
leave-Leaves library state request factory d (refused j) = elim (Bool-cases (factory.commits [])) [
  | inl c ↦ rw c (inl (append-nil d.committed))
  | inr c ↦ rw c (inl refl)
]
leave-Leaves library state request factory d (stored command options j a q) =
    elim (Bool-cases (factory.commits (new_run d command options ∷ []))) [
      | inl c ↦ rw c (
          inr (
            new_run d command options,
            event_of d.connections.isoformat (new_run d command options),
            j,
            a,
            of_outer factory q,
            event_of-IsAbout d.connections.isoformat (new_run d command options),
            refl,
            refl,
            refl,
          ))
      | inr c ↦ rw c (inl refl)
    ]

-- Whatever the request and whatever fails: the committed runs stay as they are, or one is added. In
-- the second case the request is signed with the secret of the settings and is fresh, its text is
-- read without errors, and the run is an open one in the channel and by the user of its form, with
-- the pickup time and note of its text. Then the request is answered, and an event that tells of
-- this run has been published.
pub serve_request-Leaves :
    (library : Library) (state : DependencyState) (request : Request) (d : Desk)
    → Leaves library state request d (serve_request library state request d)
unfolding serve_request with_session
serve_request-Leaves library state request d = of_factory state.session_factory refl
  where
    of_factory :
        (f : Option SessionFactory)
        → state.session_factory ≡ f
        → Leaves library state request d (serve_request library state request d)
    of_factory none e = rw e (inl refl)
    of_factory (some factory) e = rw e (
        leave-Leaves library state request factory d
          (body-IsAnswered library state request (open_session factory d)))
