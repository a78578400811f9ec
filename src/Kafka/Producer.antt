-- ===== src/Kafka/Producer.antt =====
-- infra/kafka/producer.py: KafkaEventProducer.
pub mod Count
use coffee_buddy.Prelude.{
  ℕ, ◌+◌, ◌≡◌, refl, sym, ap, ◌∙◌, ◌⊎◌, inl, inr, Bool, true, false, Option, none, some, List, [],
  ◌∷◌, ◌++◌, Bool-cases, if◌then◌else◌, arith,
}
use coffee_buddy.Effects.{Exec, Result, ok, raised, pure, raise, modify, ◌>>=◌, ◌>>◌}
use coffee_buddy.Text.{Text}
use coffee_buddy.Kafka.Models.{KafkaEvent}
use coffee_buddy.Kafka.Topics.{TopicConfig}

-- The label `status` of the counters.
pub data Status : Type 0 where
  success error : Status

-- `runtime_error` is the one of the harness; `client_failed` what a call of the client raises.
pub data ProducerError : Type 0 where
  runtime_error client_failed : ProducerError

-- A message as the client is given it.
pub record Message : Type 0 where
  pub topic : Text
  pub value : List ℕ
  pub key : Option (List ℕ)
  pub headers : List (Text × List ℕ)

-- `replies n` is whether the n-th call of the client returns.
pub record Producer : Type 0 where
  pub replies : ℕ → Bool
  pub calls : ℕ
  pub connected : Bool
  pub produced : List Message
  pub produce_total : List (Text × Status)

abbrev pub Action : Type 0 → Type 0
Action = Exec Producer ProducerError

-- A call of the client, and what it has done if it returns.
abbrev pub call_client : (Producer → Producer) → Action Unit
call_client effect p =
    let called = record p { calls = p.calls + 1 } in
    if p.replies p.calls then (ok tt, effect called) else (raised client_failed, called)

-- `if key`
abbrev pub key_bytes : (Text → List ℕ) → Option Text → Option (List ℕ)
key_bytes utf8 none = none
key_bytes utf8 (some []) = none
key_bytes utf8 (some (c ∷ cs)) = some (utf8 (c ∷ cs))

-- `self._producer` is set before the client is started.
abbrev pub start_new : Bool → Action Unit
start_new true = pure tt
start_new false = do modify (λ p. record p { connected = true }); call_client (λ p. p)

unfoldable pub start : Action Unit
start p = start_new p.connected p

abbrev pub stop_running : Bool → Action Unit
stop_running false = pure tt
stop_running true = do call_client (λ p. p); modify (λ p. record p { connected = false })

unfoldable pub stop : Action Unit
stop p = stop_running p.connected p

abbrev pub count_produced : Text → Status → Producer → Producer
count_produced topic status p = record p { produce_total = p.produce_total ++ (topic, status) ∷ [] }

-- The `try` around `send_and_wait`: the outcome is counted, and an exception raised again.
abbrev pub counted :
    Text → Result ProducerError Unit × Producer → Result ProducerError Unit × Producer
counted topic (ok u, p) = (ok u, count_produced topic success p)
counted topic (raised e, p) = (raised e, count_produced topic error p)

abbrev pub send_message : Message → Bool → Action Unit
send_message message false p = (raised runtime_error, p)
send_message message true p =
    counted message.topic (call_client (λ q. record q { produced = q.produced ++ message ∷ [] }) p)

-- `as_bytes` is the JSON of pydantic, and `utf8` the encoding of a `str`.
module _ {D : Type 0} (as_bytes : KafkaEvent D → List ℕ) (utf8 : Text → List ℕ) where
  unfoldable pub send :
      TopicConfig → KafkaEvent D → Option Text → List (Text × List ℕ) → Action Unit
  send topic event key headers p =
      send_message
        (record {
          topic = topic.name;
          value = as_bytes event;
          key = key_bytes utf8 key;
          headers = headers;
        })
        p.connected p
