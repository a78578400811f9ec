-- ===== src/Runs/Closable.antt =====
-- What `CloseRunService.close_run` checks before it asks for a runner.
use coffee_buddy.Prelude.{
  ℕ, ◌≡◌, refl, ap, Bool, true, Option, some, List, [], ◌∷◌, map, ◌⊎◌, inl, inr, arith,
  Option-cases, Bool-cases,
}
use coffee_buddy.Prelude.Rows.{find, select}
use coffee_buddy.Effects.{Result, ok, raised, and_then}
use coffee_buddy.Text.{Text}
use coffee_buddy.Uuid.{text, as_uuid, to_text}
use coffee_buddy.Schema.{Session, Run, Channel, open_}
use coffee_buddy.Orders.Lookup.{run_at}
use coffee_buddy.Runs.Models.{
  RunCloseError, value_error, run_not_found, channel_missing, run_not_open, unauthorized,
  runner_selection, no_active_orders, CloseRunRequest,
}
use coffee_buddy.Runs.Service.{
  is_open, run_row, channel_row, active_in, join_users, comes_before, get_run, get_channel,
  load_active_orders, get_previous_runner_id, finish_run, close_run, latest, is_previous,
  runner_text,
}
use coffee_buddy.Runs.Rows.{Row}
use coffee_buddy.Fairness.Service.{FairnessDecision, assign_runner}

-- The active orders of a run with their users, in the order of the database.
abbrev pub active_rows : Session → ℕ → List Row
active_rows s run =
    s.outside.order_by (comes_before s.outside.collates_before)
      (join_users s.users (select (active_in run) s.orders))

abbrev pub previous_runner : Session → Run → Option Text
previous_runner s run = runner_text (latest (select (is_previous run) s.runs))

get_run_cases :
    (run_id : Text) (s : Session)
    → ((e : RunCloseError) × (get_run run_id s ≡ (raised e, s)))
      ⊎ ((run : Run) × (get_run run_id s ≡ (ok run, s)) × (run_at s (text run_id) ≡ some run))
unfolding get_run
get_run_cases run_id s = elim (Option-cases (as_uuid (text run_id))) [
  | inl bad ↦ inl (value_error, rw bad)
  | inr (id, e) ↦ elim (Option-cases (find (run_row id) s.runs)) [
    | inl missing ↦ inl (run_not_found run_id, rw (e, missing))
    | inr (run, found) ↦ inr (run, rw (e, found), ground arith)
  ]
]

pub get_run-found :
    (run_id : Text) (s : Session) (run : Run)
    → run_at s (text run_id) ≡ some run
    → get_run run_id s ≡ (ok run, s)
unfolding get_run
get_run-found run_id s run h = ground arith

rows_cases : (rows : List Row) → (rows ≡ []) ⊎ ((r : Row) × (rs : List Row) × (rows ≡ r ∷ rs))
rows_cases [] = inl refl
rows_cases (r ∷ rs) = inr (r, rs, refl)

module _ (is_authorized : Run → Text → Bool) (request : CloseRunRequest) (s : Session) where
  -- What a request to close a run needs before a runner is chosen.
  pub record IsClosable : Type 0 where
    pub run : Run
    pub channel : Channel
    pub first : Row
    pub others : List Row
    pub run_found : run_at s (text request.run_id) ≡ some run
    pub run_open : run.status ≡ open_
    pub authorized : is_authorized run request.actor_user_id ≡ true
    pub channel_found : find (channel_row run.channel_id) s.channels ≡ some channel
    pub rows : active_rows s run.id ≡ first ∷ others

  pub close_run_early :
      ((e : RunCloseError) × (close_run is_authorized request s ≡ (raised e, s))) ⊎ IsClosable
  unfolding close_run get_channel load_active_orders
  close_run_early = elim (get_run_cases request.run_id s) [
    | inl (e, h) ↦ inl (e, rw h)
    | inr (run, h, found) ↦ elim (Bool-cases (is_open run.status)) [
      | inr shut ↦ inl (run_not_open request.run_id, rw (h, shut))
      | inl op ↦ elim (Bool-cases (is_authorized run request.actor_user_id)) [
        | inr barred ↦ inl (unauthorized request.actor_user_id request.run_id, rw (h, op, barred))
        | inl may ↦ elim (Option-cases (find (channel_row run.channel_id) s.channels)) [
          | inl missing ↦ inl (channel_missing run.channel_id, rw (h, op, may, missing))
          | inr (channel, there) ↦ elim (rows_cases (active_rows s run.id)) [
            | inl nobody ↦ inl (runner_selection no_active_orders, rw (h, op, may, there, nobody))
            | inr (r, rs, e) ↦ inr (record {
              run = run;
              channel = channel;
              first = r;
              others = rs;
              run_found = found;
              run_open = ground arith;
              authorized = may;
              channel_found = there;
              rows = e;
            })
          ]
        ]
      ]
    ]
  ]

  module _ (c : IsClosable) where
    abbrev pub rows_of : List Row
    rows_of = c.first ∷ c.others

    abbrev pub choice : Result RunCloseError FairnessDecision × Session
    choice =
        assign_runner (text (to_text c.channel.id)) (map (λ r. text (to_text r.0.user_id)) rows_of)
          (previous_runner s c.run) request.allow_immediate_repeat s

    pub close_run-closable :
        close_run is_authorized request s
        ≡ and_then choice.0 (finish_run c.run c.channel rows_of) choice.1
    unfolding close_run get_channel load_active_orders get_previous_runner_id
    close_run-closable = rw (
      get_run-found request.run_id s c.run c.run_found,
      ap is_open c.run_open,
      c.authorized,
      c.channel_found,
      c.rows,
    )
