-- ===== src/Slack/Dependencies.antt =====
-- api/slack_runs/dependencies.py
pub mod Session
use coffee_buddy.Prelude.{Bool, true, false, Option, none, some, List, [], ◌∷◌, ◌++◌, if◌then◌else◌}
use coffee_buddy.Effects.{Result, ok, raised, Exec}
use coffee_buddy.Slack.Models.{Settings}
use coffee_buddy.Slack.Service.{Desk, SessionFactory, RunEventPublisher}

-- `_state`
pub record DependencyState : Type 0 where
  pub settings : Option Settings
  pub session_factory : Option SessionFactory
  pub event_publisher : Option RunEventPublisher

-- What the three `RuntimeError`s say.
pub data DependencyError : Type 0 where
  not_configured no_session_factory no_event_publisher : DependencyError

abbrev pub start_state : DependencyState
start_state = record { settings = none; session_factory = none; event_publisher = none }

unfoldable pub configure_dependencies :
    Settings → SessionFactory → RunEventPublisher → DependencyState → DependencyState
configure_dependencies settings session_factory event_publisher state = record {
  settings = some settings;
  session_factory = some session_factory;
  event_publisher = some event_publisher;
}

abbrev pub get_settings : DependencyState → Result DependencyError Settings
get_settings state = elim state.settings [ none ↦ raised not_configured | some s ↦ ok s ]

abbrev pub get_run_event_publisher : DependencyState → Result DependencyError RunEventPublisher
get_run_event_publisher state = elim state.event_publisher [
  | none ↦ raised no_event_publisher
  | some p ↦ ok p
]

-- `_state.session_factory()`: a session that holds nothing yet.
abbrev pub open_session : SessionFactory → Desk → Desk
open_session factory d = record d { database = factory; pending = []; closed = false }

abbrev pub rollback : Desk → Desk
rollback d = record d { pending = [] }

abbrev pub close : Desk → Desk
close d = record d { closed = true }

module _ {E A : Type 0} where
  -- `session.commit()` after a body that returned: where it raises, the session is rolled back.
  unfoldable pub commit_after : (commit_error : E) → A → Desk → Result E A × Desk
  commit_after commit_error a d =
      if d.database.commits d.pending
      then (ok a, close (record d { committed = d.committed ++ d.pending; pending = [] }))
      else (raised commit_error, close (rollback d))

  abbrev pub leave : (commit_error : E) → Result E A × Desk → Result E A × Desk
  leave commit_error (ok a, d) = commit_after commit_error a d
  leave commit_error (raised e, d) = (raised e, close (rollback d))

  -- `_session_manager` round a body, where there is a factory.
  unfoldable pub with_session : SessionFactory → (commit_error : E) → Exec Desk E A → Exec Desk E A
  unfolding commit_after
  with_session factory commit_error body d = leave commit_error (body (open_session factory d))
