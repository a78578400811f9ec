-- ===== src/Runs/Shut.antt =====
-- A run that has been closed stays shut, and a close that fails closes nothing.
use mathlib.Core.Path.{subst}
use coffee_buddy.Prelude.{
  ℕ, ◌≡◌, refl, sym, ap, ◌∙◌, Bool, some, List, ◌∷◌, inl, inr, arith, Option-cases, ==_refl,
}
use coffee_buddy.Prelude.Rows.{find, find-update}
use coffee_buddy.Effects.{ok, raised}
use coffee_buddy.Text.{Text}
use coffee_buddy.Uuid.{text, as_uuid}
use coffee_buddy.Schema.{Session, Run, closed}
use coffee_buddy.Orders.Models.{
  OrderSubmissionRequest, OrderValidator, run_not_open as order_run_not_open,
}
use coffee_buddy.Orders.Service.{submit_order}
use coffee_buddy.Orders.Lookup.{run_at, get_open_run-shut}
use coffee_buddy.Runs.Models.{RunCloseError, run_not_open, CloseRunRequest, CloseRunResult}
use coffee_buddy.Runs.Service.{is_open, run_row, finalized, close_run}
use coffee_buddy.Runs.Rows.{Row}
use coffee_buddy.Runs.Frame.{StatsOnly}
use coffee_buddy.Runs.Closable.{get_run-found}
use coffee_buddy.Runs.Finish.{closed_session, close_run_cases}

-- The run as it is found after the closing.
pub run_at-closed_session :
    (run_id : Text) (s m : Session) (run : Run) (runner : ℕ) (rows : List Row)
    → StatsOnly s m
    → run_at s (text run_id) ≡ some run
    → run_at (closed_session run runner rows m) (text run_id)
      ≡ some (finalized runner (m.outside.clock m.clock_reads) run)
run_at-closed_session run_id s m run runner rows kept found =
    elim (Option-cases (as_uuid (text run_id))) [
      | inl e ↦ ground arith
      | inr (id, e) ↦
          let found' : find (run_row id) s.runs ≡ some run = rw (e, run_at) at found in
          let same : find (run_row id) m.runs ≡ some run =
            ap (λ x. find (run_row id) x.runs) kept ∙ found' in
          rw (e, run_at)
            (find-update (run_row run.id) (run_row id)
                (finalized runner (m.outside.clock m.clock_reads)) m.runs (λ r. refl)
              ∙ (rw (same, ==_refl run.id)))
    ]

module _ (is_authorized : Run → Text → Bool) (request : CloseRunRequest) (s : Session) where
  -- A close that raises has changed no run, no order and no other table but the statistics.
  pub close_run-raised :
      (e : RunCloseError) (t : Session)
      → close_run is_authorized request s ≡ (raised e, t)
      → StatsOnly s t
  close_run-raised e t h = elim (close_run_cases is_authorized request s) [
    | inl (e', t', k, kept) ↦ subst (StatsOnly s) (ap (λ r. r.1) (sym k ∙ h)) kept
    | inr f ↦ absurd (cc (f.returned, h))
  ]

  -- The run is found closed after a call that returns.
  pub close_run-shut :
      (result : CloseRunResult) (t : Session)
      → close_run is_authorized request s ≡ (ok result, t)
      → (run : Run) × (run_at t (text request.run_id) ≡ some run) × (run.status ≡ closed)
  close_run-shut result t h = elim (close_run_cases is_authorized request s) [
    | inl (e', t', k, kept) ↦ absurd (cc)
    | inr f ↦ (
      finalized f.runner (f.m.outside.clock f.m.clock_reads) f.closable.run,
      subst
          (λ x.
            run_at x (text request.run_id)
            ≡ some (finalized f.runner (f.m.outside.clock f.m.clock_reads) f.closable.run))
          (ap (λ r. r.1) (sym f.returned ∙ h))
          (run_at-closed_session request.run_id s f.m f.closable.run f.runner
            (f.closable.first ∷ f.closable.others) f.kept f.closable.run_found),
      refl,
    )
  ]

module _ (is_authorized : Run → Text → Bool) (request : CloseRunRequest) (s t : Session)
    (result : CloseRunResult) where
  -- Closing a run again raises RunNotOpenError and changes nothing, whoever asks.
  pub close_run-close_run :
      (again : CloseRunRequest)
      → close_run is_authorized request s ≡ (ok result, t)
      → again.run_id ≡ request.run_id
      → close_run is_authorized again t ≡ (raised (run_not_open again.run_id), t)
  unfolding close_run
  close_run-close_run again h same =
      let (run, found, shut) = close_run-shut is_authorized request s result t h in
      let found' : run_at t (text again.run_id) ≡ some run = rw same found in
      rw (get_run-found again.run_id t run found', ap is_open shut)

  -- Nobody can order in a run that has been closed: it raises RunNotOpenError and changes nothing.
  pub submit_order-close_run :
      (v : OrderValidator) (req : OrderSubmissionRequest)
      → close_run is_authorized request s ≡ (ok result, t)
      → req.run_id ≡ request.run_id
      → submit_order v req t ≡ (raised (order_run_not_open (text req.run_id)), t)
  unfolding submit_order
  submit_order-close_run v req h same =
      let (run, found, shut) = close_run-shut is_authorized request s result t h in
      let found' : run_at t (text req.run_id) ≡ some run = rw same found in
      rw (get_open_run-shut (text req.run_id) t run found' (ap is_open shut))
