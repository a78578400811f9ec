-- ===== src/Slack/Service/Handled.antt =====
-- What SlackRunCommandService leaves in the session and with the publisher.
use coffee_buddy.Prelude.{
  ◌+◌, ◌≡◌, refl, true, false, Option, none, some, [], ◌∷◌, ◌++◌, inl, inr, Bool-cases,
}
use coffee_buddy.Effects.{Result, ok, raised, some_or, ◌>>◌}
use coffee_buddy.Time.{utc}
use coffee_buddy.Slack.Models.{SlackCommandPayload, RunCommandOptions, Run}
use coffee_buddy.Slack.Messages.{Json, build_run_created}
use coffee_buddy.Slack.Service.{
  Desk, ServiceError, flush_failed, publish_failed, overflow_error, RunEventPublisher, run_of,
  event_of, add_run, publish_run_created, handle,
}

-- The run of this request.
abbrev pub new_run : Desk → SlackCommandPayload → RunCommandOptions → Run
new_run d command options =
    run_of (d.connections.uuid4 d.uuids) (d.connections.uuid4 (d.uuids + 1))
      (utc d.connections.clock) command options

-- The session with the run of this request, and with its event.
abbrev pub stored : Desk → Run → Desk
stored d run = record d { uuids = d.uuids + 1 + 1; pending = d.pending ++ run ∷ [] }

abbrev pub announced : Desk → Run → Desk
announced d run = record d {
  uuids = d.uuids + 1 + 1;
  pending = d.pending ++ run ∷ [];
  published = d.published ++ event_of d.connections.isoformat run ∷ [];
}

-- The ways in which a request for this run can end.
pub data Handled (publisher : RunEventPublisher) (d : Desk) (run : Run)
    : Result ServiceError Json × Desk → Type 0 where
  not_flushed :
      d.database.flushes run ≡ false → Handled publisher d run (raised flush_failed, stored d run)
  not_published :
      d.database.flushes run ≡ true
      → publisher (event_of d.connections.isoformat run) ≡ false
      → Handled publisher d run (raised publish_failed, stored d run)
  not_shown :
      d.database.flushes run ≡ true
      → publisher (event_of d.connections.isoformat run) ≡ true
      → build_run_created d.connections.display run ≡ none
      → Handled publisher d run (raised overflow_error, announced d run)
  created :
      (j : Json)
      → d.database.flushes run ≡ true
      → publisher (event_of d.connections.isoformat run) ≡ true
      → build_run_created d.connections.display run ≡ some j
      → Handled publisher d run (ok j, announced d run)

module _ (publisher : RunEventPublisher) (d : Desk) where
  answered :
      (run : Run) (m : Option Json)
      → d.database.flushes run ≡ true
      → publisher (event_of d.connections.isoformat run) ≡ true
      → build_run_created d.connections.display run ≡ m
      → Handled publisher d run (some_or overflow_error m (announced d run))
  answered run none f p e = not_shown f p e
  answered run (some j) f p e = created j f p e

  -- One run is added, which is open, belongs to the channel and the user of the command, and has the
  -- options' pickup time and note. The event that is published is about this run, and is published
  -- only once the run is flushed. Where the flush, the publisher or the text of the pickup time
  -- fails, the error goes on, and an event that is published stays so.
  pub handle-Handled :
      (command : SlackCommandPayload) (options : RunCommandOptions)
      → Handled publisher d (new_run d command options) (handle publisher command options d)
  unfolding handle
  handle-Handled command options = of_run (new_run d command options)
    where
      of_run :
          (run : Run)
          → Handled publisher d run (
              (add_run run
                  >> (publish_run_created publisher (event_of d.connections.isoformat run)
                      >> some_or overflow_error (build_run_created d.connections.display run)))
                (record d { uuids = d.uuids + 1 + 1 }))
      of_run run = elim (Bool-cases (d.database.flushes run)) [
        | inr f ↦ rw f (not_flushed f)
        | inl f ↦ elim (Bool-cases (publisher (event_of d.connections.isoformat run))) [
          | inr p ↦ rw (f, p) (not_published f p)
          | inl p ↦ rw (f, p) (answered run (build_run_created d.connections.display run) f p refl)
        ]
      ]
