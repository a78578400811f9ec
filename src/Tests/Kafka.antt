-- ===== src/Tests/Kafka.antt =====
-- Producer and consumer beside a client whose second call raises, and settings from the environment.
use coffee_buddy.Prelude.{
  ℕ, ◌+◌, ◌≡◌, ◌≢◌, refl, Bool, true, false, Option, none, some, List, [], ◌∷◌, ◌==◌, not, arith,
}
use coffee_buddy.Effects.{Exec, Result, ok, raised}
use coffee_buddy.Text.{Text, codes}
use coffee_buddy.Number.{pos}
use coffee_buddy.Kafka.Models.{KafkaEvent}
use coffee_buddy.Kafka.Topics.{run_events_topic}
use coffee_buddy.Kafka.Config.{KafkaSettings, from_env}
use coffee_buddy.Kafka.Config.RoundTrip.{exported, from_env-exported}
use coffee_buddy.Kafka.Producer.{success, error, Producer, start, send}
use coffee_buddy.Kafka.Producer.Count.{IsCounted, starts, sends, Reach, here, next, Reach-IsCounted}
use coffee_buddy.Kafka.Consumer.{
  Failure, exception, cancelled, Arrival, exhausted, client_failed, Consuming, consume_loop,
  Harness,
}
use coffee_buddy.Kafka.Consumer
use coffee_buddy.Kafka.Consumer.Loop.{before_stop, handled_all, consume_loop_lem}
use coffee_buddy.Kafka.Consumer.Lifecycle.{once, started, stopped, Retried-stop}

abbrev settings : KafkaSettings
settings = record {
  bootstrap_servers = codes "a:9092";
  security_protocol = codes "SASL_SSL";
  sasl_mechanism = some (codes "PLAIN");
  sasl_username = some (codes "u");
  sasl_password = none;
  client_id = codes "me";
  request_timeout_ms = pos 12000;
}

from_env-exported_example : from_env [] (some (exported settings)) ≡ ok settings
from_env-exported_example = from_env-exported [] settings (λ e. absurd (ground arith))

abbrev producer : Producer
producer = record {
  replies = λ n. not (n == 1);
  calls = 0;
  connected = false;
  produced = [];
  produce_total = [];
}

abbrev event : KafkaEvent Text
event = record {
  event_type = codes "e";
  correlation_id = codes "c";
  payload = codes "p";
  occurred_at = 0;
}

abbrev as_bytes : KafkaEvent Text → List ℕ
as_bytes e = e.payload

abbrev utf8 : Text → List ℕ
utf8 t = t

abbrev send_event : Producer → Producer
send_event p = (send as_bytes utf8 run_events_topic event none [] p).1

-- A start, a send that the client refuses, and one that it takes
abbrev used : Producer
used = send_event (send_event (start producer).1)

used-Reach : Reach as_bytes utf8 producer used
used-Reach =
    next (next (next here (starts producer)) (sends run_events_topic event none [] _))
      (sends run_events_topic event none [] _)

used_counts :
    used.produce_total ≡ (run_events_topic.name, error) ∷ (run_events_topic.name, success) ∷ []
unfolding start send
used_counts = refl

Reach-IsCounted_example : IsCounted used
Reach-IsCounted_example = Reach-IsCounted as_bytes utf8 used-Reach refl

-- A handler that raises on its second event, and counts the events.
abbrev outcome : Bool → Result Failure Unit
outcome true = raised exception
outcome false = ok tt

abbrev handler : KafkaEvent Text → Exec ℕ Failure Unit
handler e n = (outcome (n == 1), n + 1)

outcome-exception : (b : Bool) → outcome b ≢ raised cancelled
outcome-exception true h = absurd (cc)
outcome-exception false h = absurd (cc)

abbrev read_event : List ℕ → Option (KafkaEvent Text)
read_event [] = none
read_event (b ∷ bs) = some event

abbrev arrivals : List Arrival
arrivals =
    (record { value = 1 ∷ []; stopped = false })
    ∷ (record { value = []; stopped = false })
    ∷ (record { value = 2 ∷ []; stopped = false })
    ∷ (record { value = 3 ∷ []; stopped = true })
    ∷ []

abbrev consuming : Consuming ℕ
consuming = record { inner = 0; consume_total = [] }

abbrev topic : Text
topic = run_events_topic.name

consumed :
    (consume_loop read_event handler topic arrivals exhausted consuming).1.consume_total
    ≡ (topic, success) ∷ (topic, error) ∷ (topic, error) ∷ []
unfolding consume_loop
consumed = refl

consume_loop_lem_example : consume_loop read_event handler topic arrivals exhausted consuming ≡ (
  ok tt,
  record {
    inner = (handled_all read_event handler topic (before_stop arrivals) 0).0;
    consume_total = (handled_all read_event handler topic (before_stop arrivals) 0).1;
  },
)
consume_loop_lem_example =
    consume_loop_lem read_event handler topic (λ e n. outcome-exception (n == 1)) arrivals consuming

abbrev running : Harness
running = record { connected = true; running = true; stop_set = false }

Retried-stop_example :
    let g = (Consumer.start true (Consumer.stop client_failed true running).1).1 in
    (g.running ≡ true)
    × (g.connected ≡ true)
    × ((Consumer.stop client_failed false g).0 ≡ raised exception)
Retried-stop_example = Retried-stop false (started true (stopped true once)) refl refl
