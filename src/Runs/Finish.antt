-- ===== src/Runs/Finish.antt =====
-- `CloseRunService.close_run` either changes the statistics at most, or closes the run.
use mathlib.Core.Path.{subst}
use coffee_buddy.Prelude.{
  ◌+◌, length, ℕ, ◌≡◌, refl, ◌∙◌, Bool, some, List, ◌∷◌, map, ◌⊎◌, inl, inr, Option-cases,
}
use coffee_buddy.Prelude.Rows.{find, update}
use coffee_buddy.Effects.{ok, raised, outcome_cases}
use coffee_buddy.Text.{Text}
use coffee_buddy.Uuid.{text, as_uuid, to_text}
use coffee_buddy.Schema.{Session, Run, Channel, User}
use coffee_buddy.Runs.Models.{
  RunCloseError, value_error, runner_selection, runner_missing, CloseRunRequest, CloseRunResult,
}
use coffee_buddy.Runs.Service.{
  run_row, user_row, finalized, finalize_run, participant_order, finish_run, close_run,
}
use coffee_buddy.Runs.Rows.{Row}
use coffee_buddy.Runs.Snapshot.{snapshot, snapshot_orders_lem}
use coffee_buddy.Runs.Frame.{StatsOnly, assign_runner-KeepsRest}
use coffee_buddy.Fairness.Service.{FairnessDecision}
use coffee_buddy.Runs.Closable.{
  IsClosable, previous_runner, choice, close_run_early, close_run-closable,
}

-- What `finish_run` leaves, from the session in which the runner was chosen.
abbrev pub closed_session : Run → ℕ → List Row → Session → Session
closed_session run runner rows m =
    let time = m.outside.clock m.clock_reads in
    record m {
      clock_reads = m.clock_reads + 1;
      runs = update (run_row run.id) (finalized runner time) m.runs;
      orders = snapshot time rows m.orders;
    }

abbrev pub closed_result :
    Run → Channel → List Row → FairnessDecision → User → Session → CloseRunResult
closed_result run channel rows decision user m =
    let time = m.outside.clock m.clock_reads in
    record {
      run_id = to_text run.id;
      channel_id = to_text channel.id;
      runner_user_id = decision.runner_user_id;
      closed_at = time;
      summary = record {
        run_id = to_text run.id;
        channel_id = to_text channel.id;
        channel_name = channel.name;
        runner_user_id = decision.runner_user_id;
        runner_display_name = user.display_name;
        pickup_time = run.pickup_time;
        pickup_note = run.pickup_note;
        participants = map participant_order rows;
        total_orders = length (map participant_order rows);
        reminder_offset_minutes = channel.reminder_offset_minutes;
        reminders_enabled = channel.reminders_enabled;
        last_call_enabled = channel.last_call_enabled;
        closed_at = time;
      };
      fairness_note = decision.rationale;
    }

module _ (run : Run) (channel : Channel) (rows : List Row) (decision : FairnessDecision)
    (m : Session) where
  pub finish_run-found :
      (runner : ℕ) (user : User)
      → as_uuid (text decision.runner_user_id) ≡ some runner
      → find (user_row runner) m.users ≡ some user
      → finish_run run channel rows decision m
        ≡ (ok (closed_result run channel rows decision user m), closed_session run runner rows m)
  unfolding finalize_run
  finish_run-found runner user e found = rw (
    e,
    found,
    snapshot_orders_lem (m.outside.clock m.clock_reads) rows (record m {
      clock_reads = m.clock_reads + 1;
      runs = update (run_row run.id) (finalized runner (m.outside.clock m.clock_reads)) m.runs;
    }),
  )

  pub finish_run_cases :
      ((e : RunCloseError) × (finish_run run channel rows decision m ≡ (raised e, m)))
      ⊎ ((runner : ℕ) × (user : User) × (as_uuid (text decision.runner_user_id) ≡ some runner)
          × (find (user_row runner) m.users ≡ some user))
  finish_run_cases = elim (Option-cases (as_uuid (text decision.runner_user_id))) [
    | inl e ↦ inl (value_error, rw e)
    | inr (runner, e) ↦ elim (Option-cases (find (user_row runner) m.users)) [
      | inl k ↦ inl (runner_selection (runner_missing decision.runner_user_id), rw (e, k))
      | inr (user, k) ↦ inr (runner, user, e, k)
    ]
  ]

module _ (is_authorized : Run → Text → Bool) (request : CloseRunRequest) (s : Session) where
  -- A call that has closed the run.
  pub record Finished : Type 0 where
    pub closable : IsClosable is_authorized request s
    pub decision : FairnessDecision
    pub m : Session
    pub runner : ℕ
    pub user : User
    pub chosen : choice is_authorized request s closable ≡ (ok decision, m)
    pub kept : StatsOnly s m
    pub runner_id : as_uuid (text decision.runner_user_id) ≡ some runner
    pub runner_found : find (user_row runner) m.users ≡ some user
    pub returned : close_run is_authorized request s ≡ (
      ok (
          closed_result closable.run closable.channel
            (closable.first ∷ closable.others)
            decision
            user
            m),
      closed_session closable.run runner (closable.first ∷ closable.others) m,
    )

  pub close_run_cases :
      ((e : RunCloseError) × (t : Session) × (close_run is_authorized request s ≡ (raised e, t))
        × StatsOnly s t)
      ⊎ Finished
  close_run_cases = elim (close_run_early is_authorized request s) [
    | inl (e, h) ↦ inl (e, s, h, refl)
    | inr c ↦
        let started = close_run-closable is_authorized request s c in
        let kept =
          assign_runner-KeepsRest (text (to_text c.channel.id))
            (map (λ (r : Row). text (to_text r.0.user_id)) (c.first ∷ c.others))
            (previous_runner s c.run) request.allow_immediate_repeat s in
        elim (outcome_cases (choice is_authorized request s c)) [
          | inl (e, m, h) ↦ inl (e, m, started ∙ (rw h), subst (λ r. StatsOnly s r.1) h kept)
          | inr (decision, m, h) ↦
              elim (finish_run_cases c.run c.channel (c.first ∷ c.others) decision m) [
                | inl (e, k) ↦
                    inl (e, m, started ∙ (rw (h, k)), subst (λ r. StatsOnly s r.1) h kept)
                | inr (runner, user, is, found) ↦ inr (record {
                  closable = c;
                  decision = decision;
                  m = m;
                  runner = runner;
                  user = user;
                  chosen = h;
                  kept = subst (λ r. StatsOnly s r.1) h kept;
                  runner_id = is;
                  runner_found = found;
                  returned =
                      started
                      ∙ (rw (
                        h,
                        finish_run-found c.run c.channel (c.first ∷ c.others) decision m runner user
                            is found,
                      ));
                })
              ]
        ]
  ]
