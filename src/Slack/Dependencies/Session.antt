-- ===== src/Slack/Dependencies/Session.antt =====
-- How `_session_manager` leaves the session, whatever is done in it.
use coffee_buddy.Prelude.{
  ◌≡◌, refl, ◌⊎◌, inl, inr, true, false, some, [], ◌∷◌, ◌++◌, Bool-cases, ◌+◌,
}
use coffee_buddy.Effects.{Result, ok, raised, Exec}
use coffee_buddy.Slack.Models.{SlackCommandPayload, RunCommandOptions}
use coffee_buddy.Slack.Messages.{Json, build_run_created}
use coffee_buddy.Slack.Service.{
  Desk, SessionFactory, RunEventPublisher, commit_failed, event_of, handle,
}
use coffee_buddy.Slack.Service.Handled.{new_run}
use coffee_buddy.Slack.Dependencies.{open_session, commit_after, leave, with_session}

module _ {E A : Type 0} (factory : SessionFactory) (commit_error : E) where
  -- The session is closed and holds nothing. Either nothing has been committed, or the body has
  -- returned, its value goes on, and all that it left pending is committed.
  abbrev pub IsSettled : (inner outer : Result E A × Desk) → Type 0
  IsSettled inner outer =
      (outer.1.closed ≡ true)
      × (outer.1.pending ≡ [])
      × ((outer.1.committed ≡ inner.1.committed)
          ⊎ ((a : A) × (inner.0 ≡ ok a)
              × (outer.0 ≡ ok a)
              × (inner.1.database.commits inner.1.pending ≡ true)
              × (outer.1.committed ≡ inner.1.committed ++ inner.1.pending)))

  leave-IsSettled : (inner : Result E A × Desk) → IsSettled inner (leave commit_error inner)
  unfolding commit_after
  leave-IsSettled (raised e, b) = (refl, refl, inl refl)
  leave-IsSettled (ok a, b) = elim (Bool-cases (b.database.commits b.pending)) [
    | inl c ↦ rw c (refl, refl, inr (a, refl, refl, refl, refl))
    | inr c ↦ rw c (refl, refl, inl refl)
  ]

  -- Whatever a body does with the session it is given, and whether it returns or raises: afterwards
  -- the session is closed and holds nothing, and what it left pending is committed, and its value
  -- goes on, or nothing of it is.
  pub with_session-IsSettled :
      (body : Exec Desk E A) (d : Desk)
      → IsSettled (body (open_session factory d)) (with_session factory commit_error body d)
  unfolding with_session
  with_session-IsSettled body d = leave-IsSettled (body (open_session factory d))

-- The event is published before the commit. Where the commit fails, the request fails and its run is
-- gone, but its event has been published.
pub with_session-handle :
    (factory : SessionFactory) (publisher : RunEventPublisher) (command : SlackCommandPayload)
    (options : RunCommandOptions) (d : Desk) (j : Json)
    → factory.flushes (new_run d command options) ≡ true
    → publisher (event_of d.connections.isoformat (new_run d command options)) ≡ true
    → build_run_created d.connections.display (new_run d command options) ≡ some j
    → factory.commits (new_run d command options ∷ []) ≡ false
    → (g : Desk) × (with_session factory commit_failed (handle publisher command options) d
        ≡ (raised commit_failed, g))
      × (g.committed ≡ d.committed)
      × (g.published
          ≡ d.published ++ event_of d.connections.isoformat (new_run d command options) ∷ [])
unfolding with_session commit_after handle
with_session-handle factory publisher command options d j f p e c = (
  record d {
    database = factory;
    uuids = d.uuids + 1 + 1;
    pending = [];
    closed = true;
    published = d.published ++ event_of d.connections.isoformat (new_run d command options) ∷ [];
  },
  rw (f, p, e, c) refl,
  refl,
  refl,
)
