-- ===== src/Reminders/Worker.antt =====
-- infra/kafka/reminder_worker.py: ReminderWorker.
use coffee_buddy.Prelude.{
  ℕ, zero, suc, ◌+◌, ◌-◌, Bool, true, false, ◌&&◌, Option, none, some, List, [], ◌∷◌, ◌++◌, leb,
  is_some, if◌then◌else◌,
}
use coffee_buddy.Effects.{Exec, Result, ok, raised, modify, some_or, ◌>>=◌, ◌>>◌}
use coffee_buddy.Number.{ℤ, pos, negsuc, ◌-ℤ◌, abs, scale}
use coffee_buddy.Time.{DateTime, instant, second}
use coffee_buddy.Kafka.Models.{KafkaEvent, ReminderType, runner, last_call, ReminderPayload}

-- The label `status` of REMINDER_SEND_TOTAL.
pub data SendStatus : Type 0 where
  skipped sent error : SendStatus

-- `never_woken` stands for a wait that has not ended.
pub data WorkerError : Type 0 where
  validation_error send_failed type_error never_woken : WorkerError

-- A call of the sender that has returned: the method by its reminder type, and when it was called.
pub record Delivery : Type 0 where
  pub by : ReminderType
  pub payload : ReminderPayload
  pub at : ℕ

-- What the worker is connected with: when a sleep that starts at a time and is to last so many
-- microseconds ends; whether the n-th call of the sender returns; and how long it takes.
pub record Surroundings : Type 0 where
  pub wake : (now delay : ℕ) → ℕ
  pub delivers : ℕ → Bool
  pub takes : ℕ → ℕ

pub record Node : Type 0 where
  pub surroundings : Surroundings
  pub time : ℕ
  pub calls : ℕ
  pub deliveries : List Delivery
  pub send_total : List (ReminderType × SendStatus)
  pub delays : List ℕ

-- `.labels(reminder_type=…, status=…).inc()`
abbrev pub count_send : ReminderType → SendStatus → Exec Node WorkerError Unit
count_send kind status = modify (λ n. record n { send_total = n.send_total ++ (kind, status) ∷ [] })

unfoldable pub should_dispatch : ReminderPayload → Bool
should_dispatch p =
    p.channel_reminders_enabled
    && elim p.reminder_type [ runner ↦ is_some p.runner_user_id | last_call ↦ p.last_call_enabled ]

-- How long the worker sleeps when `delay` is left.
abbrev pub nap : (tolerance : ℤ) (delay : ℕ) → ℕ
nap (pos tolerance) delay = if leb delay tolerance then delay else delay - tolerance
nap (negsuc tolerance) delay = delay + suc tolerance

-- The time at which `_wait_until` returns; `none` if it has not after `fuel` rounds.
unfoldable pub wait_until : Surroundings → (tolerance : ℤ) (target : ℤ) (fuel now : ℕ) → Option ℕ
wait_until w tolerance target zero now = none
wait_until w tolerance target (suc fuel) now = elim (target -ℤ pos now) [
  | negsuc late ↦ some now
  | pos zero ↦ some now
  | pos (suc left) ↦ wait_until w tolerance target fuel (w.wake now (nap tolerance (suc left)))
]

-- `await send_fn(payload)`
abbrev pub send : ReminderPayload → Exec Node WorkerError Unit
send p n =
    let called = record n { calls = n.calls + 1; time = n.time + n.surroundings.takes n.calls } in
    if n.surroundings.delivers n.calls
    then (
      ok tt,
      record called {
        deliveries =
            n.deliveries ++ (record { by = p.reminder_type; payload = p; at = n.time }) ∷ [];
      },
    )
    else (raised send_failed, called)

-- `abs((self._clock() - payload.scheduled_for).total_seconds())`: a naive time cannot be subtracted.
abbrev pub observe_delay : DateTime → Exec Node WorkerError Unit
observe_delay d n = elim d.tzinfo [
  | none ↦ (raised type_error, n)
  | some offset ↦ (ok tt, record n { delays = n.delays ++ abs (pos n.time -ℤ instant d) ∷ [] })
]

-- The body of the `try`.
abbrev pub attempt : ReminderPayload → Exec Node WorkerError Unit
attempt p = do send p; count_send p.reminder_type sent; observe_delay p.scheduled_for

-- The `except`: the exception is counted, and raised again.
abbrev pub after_attempt :
    ReminderPayload → Result WorkerError Unit × Node → Result WorkerError Unit × Node
after_attempt p (ok u, n) = (ok u, n)
after_attempt p (raised e, n) =
    (raised e, record n { send_total = n.send_total ++ (p.reminder_type, error) ∷ [] })

abbrev pub counting_errors :
    ReminderPayload → Exec Node WorkerError Unit → Exec Node WorkerError Unit
counting_errors p m n = after_attempt p (m n)

-- Three rounds are enough for the wait, by `wait_until-ends`.
abbrev pub woken : Option ℕ → Exec Node WorkerError Unit
woken none n = (raised never_woken, n)
woken (some time) n = (ok tt, record n { time = time })

unfoldable pub wait : (tolerance_seconds : ℤ) → DateTime → Exec Node WorkerError Unit
unfolding wait_until
wait tolerance_seconds scheduled_for n =
    woken
      (wait_until n.surroundings (scale second tolerance_seconds) (instant scheduled_for) 3 n.time)
      n

abbrev pub dispatch : (tolerance_seconds : ℤ) → ReminderPayload → Bool → Exec Node WorkerError Unit
dispatch tolerance_seconds p false = count_send p.reminder_type skipped
dispatch tolerance_seconds p true = do
  wait tolerance_seconds p.scheduled_for
  counting_errors p (attempt p)

-- `validate` is `model_validate` of pydantic.
module _ {D : Type 0} (validate : D → Option ReminderPayload) (tolerance_seconds : ℤ) where
  unfoldable pub process_event : KafkaEvent D → Exec Node WorkerError Unit
  process_event event = do
    payload ← some_or validation_error (validate event.payload)
    dispatch tolerance_seconds payload (should_dispatch payload)
