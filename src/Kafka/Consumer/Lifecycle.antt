-- ===== src/Kafka/Consumer/Lifecycle.antt =====
-- Starting and stopping KafkaEventConsumer.
use coffee_buddy.Prelude.{◌≡◌, refl, Bool, true, false, arith}
use coffee_buddy.Effects.{ok, raised}
use coffee_buddy.Kafka.Consumer.{exception, Ending, client_failed, Harness, start, stop}

-- A task runs only beside a consumer.
abbrev pub IsConsistent : Harness → Type 0
IsConsistent h = h.running ≡ true → h.connected ≡ true

-- One call of the harness, with what the client and the task answer.
pub data Step : Harness → Harness → Type 0 where
  starts : (replies : Bool) (h : Harness) → Step h (start replies h).1
  stops : (ending : Ending) (replies : Bool) (h : Harness) → Step h (stop ending replies h).1

pub data Reach (h : Harness) : Harness → Type 0 where
  here : Reach h h
  next : {g k : Harness} → Reach h g → Step g k → Reach h k

Step-IsConsistent : {g h : Harness} → Step g h → IsConsistent g → IsConsistent h
unfolding start stop
Step-IsConsistent (starts replies h) c = ground arith
Step-IsConsistent (stops ending replies h) c = ground arith

-- However the harness is started and stopped, and whatever the client and the task answer, a task
-- runs only beside a consumer.
pub Reach-IsConsistent : {g h : Harness} → Reach g h → IsConsistent g → IsConsistent h
Reach-IsConsistent here c = c
Reach-IsConsistent (next r st) c = Step-IsConsistent st (Reach-IsConsistent r c)

-- A stop that returns leaves neither a task nor a consumer.
pub stop-ok :
    (ending : Ending) (replies : Bool) (h g : Harness)
    → stop ending replies h ≡ (ok tt, g)
    → (g.running ≡ false) × (g.connected ≡ false) × (g.stop_set ≡ true)
unfolding stop
stop-ok ending replies h g e = ground arith

-- After a start in which the client raises, starting again returns at once and starts no task.
pub start-start_client_failed :
    (h : Harness) (replies : Bool)
    → h.connected ≡ false
    → h.running ≡ false
    → (g : Harness) × (start false h ≡ (raised exception, g))
      × (start replies g ≡ (ok tt, g))
      × (g.running ≡ false)
unfolding start
start-start_client_failed h replies off idle =
    (record h { stop_set = false; connected = true }, rw off refl, refl, idle)

-- Any number of starts, and of stops that find the task failed, with what the client answers.
pub data Retried (h : Harness) : Harness → Type 0 where
  once : Retried h h
  started : {g : Harness} (replies : Bool) → Retried h g → Retried h (start replies g).1
  stopped :
      {g : Harness} (replies : Bool) → Retried h g → Retried h (stop client_failed replies g).1

Retried-running :
    {h g : Harness}
    → Retried h g
    → h.running ≡ true
    → h.connected ≡ true
    → (g.running ≡ true) × (g.connected ≡ true)
unfolding start stop
Retried-running once on held = (on, held)
Retried-running (started {g = g} replies r) on held =
    let (still, kept) = Retried-running r on held in rw kept (still, refl)
Retried-running (stopped {g = g} replies r) on held =
    let (still, kept) = Retried-running r on held in rw still (refl, kept)

-- A harness with a consumer whose task has failed cannot be stopped: however often it is started
-- and stopped, and whatever the client answers, the consumer and the task stay, and a stop raises.
pub Retried-stop :
    {h g : Harness} (replies : Bool)
    → Retried h g
    → h.running ≡ true
    → h.connected ≡ true
    → (g.running ≡ true)
      × (g.connected ≡ true)
      × ((stop client_failed replies g).0 ≡ raised exception)
unfolding stop
Retried-stop {g = g} replies r on held =
    let (still, kept) = Retried-running r on held in (still, kept, rw still refl)
