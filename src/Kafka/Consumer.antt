-- ===== src/Kafka/Consumer.antt =====
-- infra/kafka/consumer.py: KafkaEventConsumer.
pub mod Loop
pub mod Lifecycle
use coffee_buddy.Prelude.{
  ℕ, Bool, true, false, Option, none, some, List, [], ◌∷◌, ◌++◌, if◌then◌else◌,
}
use coffee_buddy.Effects.{Exec, Result, ok, raised, pure, raise, modify, ◌>>=◌, ◌>>◌}
use coffee_buddy.Text.{Text}
use coffee_buddy.Kafka.Models.{KafkaEvent}
use coffee_buddy.Kafka.Producer.{Status, success, error}

-- What a call raises: an `Exception`, or the `CancelledError` of a task that is cancelled.
pub data Failure : Type 0 where
  exception cancelled : Failure

-- A message, and whether the stop event has been set when it arrives.
pub record Arrival : Type 0 where
  pub value : List ℕ
  pub stopped : Bool

-- How the iteration over the client ends.
pub data Ending : Type 0 where
  exhausted client_failed task_cancelled : Ending

-- The state of what the handler works on, and the counter KAFKA_CONSUME_TOTAL.
pub record Consuming (S : Type 0) : Type 0 where
  pub inner : S
  pub consume_total : List (Text × Status)

-- `validate_json` is the one of pydantic.
module _ {S D : Type 0} (validate_json : List ℕ → Option (KafkaEvent D))
    (handler : KafkaEvent D → Exec S Failure Unit) (topic : Text) where
  abbrev pub Action : Type 0 → Type 0
  Action = Exec (Consuming S) Failure

  abbrev pub count_consumed : Status → Consuming S → Consuming S
  count_consumed status c = record c { consume_total = c.consume_total ++ (topic, status) ∷ [] }

  -- After the handler: an `Exception` is counted and goes no further.
  abbrev pub after_handler :
      Consuming S → Result Failure Unit × S → Result Failure Unit × Consuming S
  after_handler c (ok u, s) = (ok tt, count_consumed success (record c { inner = s }))
  after_handler c (raised exception, s) = (ok tt, count_consumed error (record c { inner = s }))
  after_handler c (raised cancelled, s) = (raised cancelled, record c { inner = s })

  abbrev pub handle : Option (KafkaEvent D) → Action Unit
  handle none c = (ok tt, count_consumed error c)
  handle (some event) c = after_handler c (handler event c.inner)

  abbrev pub process : List ℕ → Action Unit
  process value = handle (validate_json value)

  abbrev pub finish : Ending → Action Unit
  finish exhausted c = (ok tt, c)
  finish client_failed c = (raised exception, count_consumed error c)
  finish task_cancelled c = (raised cancelled, c)

  unfoldable pub consume_loop : List Arrival → Ending → Action Unit
  consume_loop [] ending = finish ending
  consume_loop (m ∷ ms) ending =
      let rest = process m.value >>= λ _. consume_loop ms ending in
      elim m.stopped [ true ↦ pure tt | false ↦ rest ]

-- The attributes of the harness: whether there is a consumer and a task, and the stop event.
pub record Harness : Type 0 where
  pub connected : Bool
  pub running : Bool
  pub stop_set : Bool

abbrev pub Control : Type 0
Control = Exec Harness Failure Unit

-- `await client_call()`, which returns or raises.
abbrev pub client_call : Bool → Control
client_call true = pure tt
client_call false = raise exception

abbrev pub start_new : Bool → Bool → Control
start_new replies true = pure tt
start_new replies false = do
  modify (λ h. record h { stop_set = false; connected = true })
  client_call replies
  modify (λ h. record h { running = true })

-- `replies` is whether the client starts.
unfoldable pub start : (replies : Bool) → Control
start replies h = start_new replies h.connected h

-- How the task has ended when it is awaited; a `CancelledError` is suppressed.
abbrev pub await_task : Ending → Control
await_task exhausted = pure tt
await_task client_failed = raise exception
await_task task_cancelled = pure tt

abbrev pub stop_task : Ending → Bool → Control
stop_task ending false = pure tt
stop_task ending true = do await_task ending; modify (λ h. record h { running = false })

abbrev pub stop_consumer : Bool → Bool → Control
stop_consumer replies false = pure tt
stop_consumer replies true = do client_call replies; modify (λ h. record h { connected = false })

-- `ending` is how the task ends, and `replies` whether the client stops.
unfoldable pub stop : Ending → (replies : Bool) → Control
stop ending replies = do
  modify (λ h. record h { stop_set = true })
  λ h. stop_task ending h.running h
  λ h. stop_consumer replies h.connected h
