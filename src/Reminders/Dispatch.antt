-- ===== src/Reminders/Dispatch.antt =====
-- `ReminderWorker.process_event`: what is delivered, when, and what is counted.
use mathlib.Core.Path.{subst}
use coffee_buddy.Prelude.{
  ℕ, ◌+◌, ◌≡◌, refl, sym, ◌⊎◌, inl, inr, true, false, Option, none, some, [], ◌∷◌, ◌++◌, All,
  All-append, Bool-cases, Option-cases, arith,
}
use coffee_buddy.Effects.{ok, raised}
use coffee_buddy.Number.{ℤ, pos, ◌-ℤ◌, abs, scale}
use coffee_buddy.Text.{Text}
use coffee_buddy.Time.{DateTime, instant, second}
use coffee_buddy.Kafka.Models.{KafkaEvent, ReminderType, runner, last_call, ReminderPayload}
use coffee_buddy.Reminders.Worker.{
  skipped, sent, error, send_failed, type_error, Delivery, Node, should_dispatch, wait,
  process_event,
}
use coffee_buddy.Reminders.Wait.{Reached, SleepsEnough, wait_until-ends}

-- The settings of the channel ask for the reminder: reminders are on, and one for the runner names
-- a runner, while one for the last call needs last calls on.
abbrev pub IsWanted : ReminderPayload → Type 0
IsWanted p =
    (p.channel_reminders_enabled ≡ true)
    × (((p.reminder_type ≡ runner) × (u : Text) × (p.runner_user_id ≡ some u))
        ⊎ ((p.reminder_type ≡ last_call) × (p.last_call_enabled ≡ true)))

-- A delivery that was asked for and not early.
abbrev pub IsDue : Delivery → Type 0
IsDue d =
    Reached (instant d.payload.scheduled_for) d.at
    × IsWanted d.payload
    × (d.by ≡ d.payload.reminder_type)

type-cases : (t : ReminderType) → (t ≡ runner) ⊎ (t ≡ last_call)
type-cases runner = inl refl
type-cases last_call = inr refl

should_dispatch-IsWanted : (p : ReminderPayload) → should_dispatch p ≡ true → IsWanted p
unfolding should_dispatch
should_dispatch-IsWanted p h = elim (Bool-cases p.channel_reminders_enabled) [
  | inr off ↦ absurd (ground arith)
  | inl on ↦ (
    on,
    elim (type-cases p.reminder_type) [
      | inl t ↦ elim (Option-cases p.runner_user_id) [
        | inl nobody ↦ absurd (ground arith)
        | inr (u, e) ↦ inl (t, u, e)
      ]
      | inr t ↦ inr (t, ground arith)
    ],
  )
]

wait_lem :
    (tolerance : ℤ) (d : DateTime) (n : Node)
    → SleepsEnough n.surroundings
    → (t : ℕ) × Reached (instant d) t × (wait tolerance d n ≡ (ok tt, record n { time = t }))
unfolding wait
wait_lem tolerance d n enough =
    let (t, e, reached) =
      wait_until-ends n.surroundings (scale second tolerance) (instant d) enough n.time in
    (t, reached, rw e refl)

module _ {D : Type 0} (validate : D → Option ReminderPayload) (tolerance : ℤ) (event : KafkaEvent D)
    (n : Node) where
  -- The payload is not for sending: this is counted, and nothing is sent.
  abbrev pub Skips : ReminderPayload → Type 0
  Skips p =
      (should_dispatch p ≡ false)
      × (process_event validate tolerance event n
          ≡ (ok tt, record n { send_total = n.send_total ++ (p.reminder_type, skipped) ∷ [] }))

  -- The sender has returned: one delivery and one count.
  abbrev pub Delivers : ReminderPayload → ℕ → Type 0
  Delivers p t =
      (m : Node) × (process_event validate tolerance event n ≡ (ok tt, m))
      × (m.deliveries ≡ n.deliveries ++ (record { by = p.reminder_type; payload = p; at = t }) ∷ [])
      × (m.send_total ≡ n.send_total ++ (p.reminder_type, sent) ∷ [])

  -- The sender has raised: no delivery, and an error is counted.
  abbrev pub Fails : ReminderPayload → Type 0
  Fails p =
      (m : Node) × (process_event validate tolerance event n ≡ (raised send_failed, m))
      × (m.deliveries ≡ n.deliveries)
      × (m.send_total ≡ n.send_total ++ (p.reminder_type, error) ∷ [])

  -- The sender has returned, and measuring the delay of a naive time has raised.
  abbrev pub Misreports : ReminderPayload → ℕ → Type 0
  Misreports p t =
      (m : Node) × (process_event validate tolerance event n ≡ (raised type_error, m))
      × (m.deliveries ≡ n.deliveries ++ (record { by = p.reminder_type; payload = p; at = t }) ∷ [])
      × (m.send_total
          ≡ (n.send_total ++ (p.reminder_type, sent) ∷ []) ++ (p.reminder_type, error) ∷ [])

  -- The node once the sender has been called at `t`.
  abbrev called : ℕ → Node
  called t = record n { time = t + n.surroundings.takes n.calls; calls = n.calls + 1 }

  abbrev failed_node : ReminderPayload → ℕ → Node
  failed_node p t = record (called t) { send_total = n.send_total ++ (p.reminder_type, error) ∷ [] }

  abbrev sent_node : ReminderPayload → ℕ → Node
  sent_node p t = record (called t) {
    deliveries = n.deliveries ++ (record { by = p.reminder_type; payload = p; at = t }) ∷ [];
    send_total = n.send_total ++ (p.reminder_type, sent) ∷ [];
  }

  abbrev measured_node : ReminderPayload → ℕ → Node
  measured_node p t = record (sent_node p t) {
    delays =
        n.delays ++ abs (pos (t + n.surroundings.takes n.calls) -ℤ instant p.scheduled_for) ∷ [];
  }

  abbrev misreported_node : ReminderPayload → ℕ → Node
  misreported_node p t = record (sent_node p t) {
    send_total = (n.send_total ++ (p.reminder_type, sent) ∷ []) ++ (p.reminder_type, error) ∷ [];
  }

  module _ (enough : SleepsEnough n.surroundings) (p : ReminderPayload)
      (valid : validate event.payload ≡ some p) where
    -- A payload that is not for sending is skipped. One that is for sending is sent once, and not
    -- before its time `t`: if the sender raises, an error is counted and the exception passed on; if
    -- it returns, the reminder is counted as sent; but where the scheduled time is naive the call
    -- raises a `TypeError` after the reminder has been sent, and counts an error as well.
    pub process_event_lem :
        Skips p
        ⊎ ((should_dispatch p ≡ true)
            × (t : ℕ) × Reached (instant p.scheduled_for) t
            × (((n.surroundings.delivers n.calls ≡ false) × Fails p)
                ⊎ ((n.surroundings.delivers n.calls ≡ true)
                    × (((offset : ℤ) × (p.scheduled_for.tzinfo ≡ some offset) × Delivers p t)
                        ⊎ ((p.scheduled_for.tzinfo ≡ none) × Misreports p t)))))
    unfolding process_event
    process_event_lem = elim (Bool-cases (should_dispatch p)) [
      | inr not_for ↦ inl (not_for, rw (valid, not_for) refl)
      | inl for ↦
          let (t, reached, waited) = wait_lem tolerance p.scheduled_for n enough in
          inr (
            for,
            t,
            reached,
            elim (Bool-cases (n.surroundings.delivers n.calls)) [
              | inr fails ↦
                  inl (fails, (failed_node p t, rw (valid, for, waited, fails) refl, refl, refl))
              | inl returns ↦ inr (
                returns,
                elim (Option-cases p.scheduled_for.tzinfo) [
                  | inl naive ↦ inr (
                    naive,
                    (
                      misreported_node p t,
                      rw (valid, for, waited, returns, naive) refl,
                      refl,
                      refl,
                    ),
                  )
                  | inr (offset, aware) ↦ inl (
                    offset,
                    aware,
                    (measured_node p t, rw (valid, for, waited, returns, aware) refl, refl, refl),
                  )
                ],
              )
            ],
          )
    ]

  -- A delivery that is due may follow those that are.
  IsDue-after :
      (p : ReminderPayload) (t : ℕ)
      → should_dispatch p ≡ true
      → Reached (instant p.scheduled_for) t
      → All IsDue n.deliveries
      → All IsDue (n.deliveries ++ (record { by = p.reminder_type; payload = p; at = t }) ∷ [])
  IsDue-after p t for reached h =
      All-append IsDue n.deliveries _ h ((reached, should_dispatch-IsWanted p for, refl), tt)

  -- Whatever event comes, and whether the call returns or raises: if all deliveries so far were due
  -- (not before their time, wanted by the settings of the channel, and by the method for its type),
  -- so are all deliveries afterwards, where a sleep lasts at least as long as it is asked to.
  pub process_event-IsDue :
      SleepsEnough n.surroundings
      → All IsDue n.deliveries
      → All IsDue (process_event validate tolerance event n).1.deliveries
  unfolding process_event
  process_event-IsDue enough h = elim (Option-cases (validate event.payload)) [
    | inl invalid ↦ rw invalid h
    | inr (p, valid) ↦ elim (process_event_lem enough p valid) [
      | inl (not_for, e) ↦ subst (λ r. All IsDue r.1.deliveries) (sym e) h
      | inr (for, t, reached, rest) ↦ elim rest [
        | inl (fails, (m, e, same, counted)) ↦
            subst (λ r. All IsDue r.1.deliveries) (sym e) (subst (All IsDue) (sym same) h)
        | inr (returns, sends) ↦ elim sends [
          | inl (offset, aware, (m, e, more, counted)) ↦
              subst (λ r. All IsDue r.1.deliveries) (sym e)
                (subst (All IsDue) (sym more) (IsDue-after p t for reached h))
          | inr (naive, (m, e, more, counted)) ↦
              subst (λ r. All IsDue r.1.deliveries) (sym e)
                (subst (All IsDue) (sym more) (IsDue-after p t for reached h))
        ]
      ]
    ]
  ]

  pub surroundings-process_event :
      SleepsEnough n.surroundings
      → (process_event validate tolerance event n).1.surroundings ≡ n.surroundings
  unfolding process_event
  surroundings-process_event enough = elim (Option-cases (validate event.payload)) [
    | inl invalid ↦ rw invalid refl
    | inr (p, valid) ↦ elim (Bool-cases (should_dispatch p)) [
      | inr not_for ↦ rw (valid, not_for) refl
      | inl for ↦
          let (t, reached, waited) = wait_lem tolerance p.scheduled_for n enough in
          elim (Bool-cases (n.surroundings.delivers n.calls)) [
            | inr fails ↦ rw (valid, for, waited, fails) refl
            | inl returns ↦ elim (Option-cases p.scheduled_for.tzinfo) [
              | inl naive ↦ rw (valid, for, waited, returns, naive) refl
              | inr (offset, aware) ↦ rw (valid, for, waited, returns, aware) refl
            ]
          ]
    ]
  ]
