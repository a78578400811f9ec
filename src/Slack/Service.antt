-- ===== src/Slack/Service.antt =====
-- api/slack_runs/service.py
pub mod Handled
use coffee_buddy.Prelude.{
  ℕ, ◌+◌, Bool, true, false, Option, none, some, List, [], ◌∷◌, ◌++◌, if◌then◌else◌,
}
use coffee_buddy.Effects.{Result, ok, raised, Exec, pure, raise, some_or, modify, ◌>>=◌, ◌>>◌}
use coffee_buddy.Text.{Text, codes}
use coffee_buddy.Time.{DateTime, utc}
use coffee_buddy.Slack.Models.{SlackCommandPayload, RunCommandOptions, Run, RunCreatedEvent}
use coffee_buddy.Slack.Messages.{Json, build_run_created}

-- What the database takes: a new row at a flush, and what is pending at a commit.
pub record SessionFactory : Type 0 where
  pub flushes : Run → Bool
  pub commits : List Run → Bool

-- Whether the publisher takes an event, or raises.
abbrev pub RunEventPublisher : Type 0
RunEventPublisher = RunCreatedEvent → Bool

-- What the service calls: the n-th `uuid4()` as a text, the clock at this request, and the texts of
-- times: `isoformat`, and the text for the channel, which may raise.
pub record Connections : Type 0 where
  pub uuid4 : ℕ → Text
  pub clock : ℕ
  pub isoformat : DateTime → Text
  pub display : DateTime → Option Text

-- The session, with the table `runs` as it is committed, and the events that are published.
pub record Desk : Type 0 where
  pub connections : Connections
  pub database : SessionFactory
  pub uuids : ℕ
  pub pending : List Run
  pub committed : List Run
  pub published : List RunCreatedEvent
  pub closed : Bool

pub data ServiceError : Type 0 where
  flush_failed publish_failed commit_failed overflow_error : ServiceError

abbrev pub Action : Type 0 → Type 0
Action = Exec Desk ServiceError

-- `str(uuid4())`
abbrev pub new_uuid : Action Text
new_uuid d = (ok (d.connections.uuid4 d.uuids), record d { uuids = d.uuids + 1 })

-- `session.add(run)` and `session.flush()`
abbrev pub add_run : Run → Action Unit
add_run run d =
    let added = record d { pending = d.pending ++ run ∷ [] } in
    if d.database.flushes run then (ok tt, added) else (raised flush_failed, added)

abbrev pub publish_run_created : RunEventPublisher → RunCreatedEvent → Action Unit
publish_run_created publisher event d =
    if publisher event
    then (ok tt, record d { published = d.published ++ event ∷ [] })
    else (raised publish_failed, d)

abbrev pub run_of :
    (id correlation_id : Text) → (now : DateTime) → SlackCommandPayload → RunCommandOptions → Run
run_of id correlation_id now command options = record {
  id = id;
  channel_id = command.channel_id;
  initiator_user_id = command.user_id;
  status = codes "open";
  pickup_time = options.pickup_time;
  pickup_note = options.pickup_note;
  correlation_id = correlation_id;
  started_at = now;
  created_at = now;
  updated_at = now;
}

abbrev pub event_of : (isoformat : DateTime → Text) → Run → RunCreatedEvent
event_of isoformat run = record {
  run_id = run.id;
  channel_id = run.channel_id;
  initiator_user_id = run.initiator_user_id;
  pickup_time = elim run.pickup_time [ none ↦ none | some t ↦ some (isoformat t) ];
  pickup_note = run.pickup_note;
  correlation_id = run.correlation_id;
  created_at = isoformat run.started_at;
}

unfoldable pub handle : RunEventPublisher → SlackCommandPayload → RunCommandOptions → Action Json
handle publisher command options d =
    (do
      id ← new_uuid
      correlation_id ← new_uuid
      let run = run_of id correlation_id (utc d.connections.clock) command options
      add_run run
      publish_run_created publisher (event_of d.connections.isoformat run)
      some_or overflow_error (build_run_created d.connections.display run))
      d
