-- ===== src/Reminders/Delivery.antt =====
-- The worker as the handler of a consumer of the reminder topic.
use mathlib.Core.Path.{subst}
use coffee_buddy.Prelude.{ℕ, ◌≡◌, refl, sym, Option, List, All}
use coffee_buddy.Effects.{Exec, Result, ok, raised}
use coffee_buddy.Number.{ℤ}
use coffee_buddy.Kafka.Models.{KafkaEvent, ReminderPayload}
use coffee_buddy.Kafka.Topics.{reminder_events_topic}
use coffee_buddy.Kafka.Consumer.{Failure, exception, Arrival, Ending, Consuming, consume_loop}
use coffee_buddy.Kafka.Consumer.Loop.{consume_loop_keeps}
use coffee_buddy.Reminders.Worker.{WorkerError, Node, process_event}
use coffee_buddy.Reminders.Wait.{SleepsEnough}
use coffee_buddy.Reminders.Dispatch.{IsDue, process_event-IsDue, surroundings-process_event}

-- What the worker raises is an `Exception`.
abbrev pub as_failure : Result WorkerError Unit × Node → Result Failure Unit × Node
as_failure (ok u, n) = (ok u, n)
as_failure (raised e, n) = (raised exception, n)

module _ {D : Type 0} (validate : D → Option ReminderPayload) (tolerance : ℤ) where
  abbrev pub worker_handler : KafkaEvent D → Exec Node Failure Unit
  worker_handler event n = as_failure (process_event validate tolerance event n)

  node-as_failure : (r : Result WorkerError Unit × Node) → (as_failure r).1 ≡ r.1
  node-as_failure (ok u, n) = refl
  node-as_failure (raised e, n) = refl

  abbrev AllDue : Node → Type 0
  AllDue n = SleepsEnough n.surroundings × All IsDue n.deliveries

  worker_handler-AllDue :
      (event : KafkaEvent D) (n : Node) → AllDue n → AllDue (worker_handler event n).1
  worker_handler-AllDue event n (enough, due) =
      subst AllDue (sym (node-as_failure (process_event validate tolerance event n))) (
        subst SleepsEnough (sym (surroundings-process_event validate tolerance event n enough))
            enough,
        process_event-IsDue validate tolerance event n enough due,
      )

  -- Whatever messages arrive on the reminder topic, readable or not, in whatever order, and however
  -- the loop ends: if every reminder sent so far was due, so is every one sent afterwards, where a
  -- sleep lasts at least as long as it is asked to. One that is due is not sent before its time,
  -- reminders are on in its channel, one for the runner names a runner, one for the last call has
  -- last calls on, and it is sent by the method for its type.
  pub consume_loop-IsDue :
      (validate_json : List ℕ → Option (KafkaEvent D)) (ms : List Arrival) (ending : Ending)
      (c : Consuming Node)
      → SleepsEnough c.inner.surroundings
      → All IsDue c.inner.deliveries
      → All IsDue
          (consume_loop validate_json worker_handler reminder_events_topic.name ms ending
            c).1.inner.deliveries
  consume_loop-IsDue validate_json ms ending c enough due =
      (consume_loop_keeps validate_json worker_handler reminder_events_topic.name AllDue
        worker_handler-AllDue ms ending c (enough, due)).1
