-- ===== src/Runs/Close.antt =====
-- `CloseRunService.close_run` on a run that can be closed.
use coffee_buddy.Prelude.{ℕ, ◌≡◌, Bool, false, some, List, ◌∷◌, map, ◌==◌, All, length}
use coffee_buddy.Prelude.Rows.{find, count}
use coffee_buddy.Text.{Text}
use coffee_buddy.Uuid.{text, to_text}
use coffee_buddy.Schema.{Session, Run, closed}
use coffee_buddy.Schema.Valid.{IsValid}
use coffee_buddy.Orders.Lookup.{run_at}
use coffee_buddy.Runs.Models.{CloseRunRequest, CloseRunResult}
use coffee_buddy.Runs.Service.{run_row, active_in, participant_order}
use coffee_buddy.Runs.Rows.{Row}
use coffee_buddy.Runs.Snapshot.{IsFinal}
use coffee_buddy.Runs.Closable.{IsClosable, previous_runner}
use coffee_buddy.Fairness.Service.{FairnessDecision}
use coffee_buddy.Fairness.Assign.{Assigned}
use coffee_buddy.Runs.Active.{orderers}

module _ (is_authorized : Run → Text → Bool) (request : CloseRunRequest) (s : Session)
    (c : IsClosable is_authorized request s) where
  abbrev rows : List Row
  rows = c.first ∷ c.others

  -- What a close that returns has done: `m` is the session in which the runner was chosen.
  pub record Closed (t : Session) (result : CloseRunResult) : Type 0 where
    pub m : Session
    pub decision : FairnessDecision
    pub assigned :
        Assigned c.channel.id
          (orderers rows)
          (previous_runner s c.run)
          request.allow_immediate_repeat
          s
          m
          decision
    pub runner_user_id : result.runner_user_id ≡ to_text assigned.runner
    pub runner_stats : t.runner_stats ≡ m.runner_stats
    pub run_closed :
        run_at t (text request.run_id)
        ≡ some (record c.run {
          runner_user_id = some assigned.runner;
          status = closed;
          closed_at = some result.closed_at;
          updated_at = result.closed_at;
        })
    pub other_runs :
        (id : ℕ) → (c.run.id == id) ≡ false → find (run_row id) t.runs ≡ find (run_row id) s.runs
    pub finals : All (λ r. IsFinal t.orders r.0) rows
    pub active : (id : ℕ) → count (active_in id) t.orders ≡ count (active_in id) s.orders
    pub participants : result.summary.participants ≡ map participant_order rows
    pub total : result.summary.total_orders ≡ length rows
    pub valid : IsValid t
    pub rest : t ≡ record s {
      clock_reads = t.clock_reads;
      uuids_drawn = t.uuids_drawn;
      runs = t.runs;
      orders = t.orders;
      runner_stats = t.runner_stats;
    }
