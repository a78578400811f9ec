-- ===== src/Kafka/Consumer/Loop.antt =====
-- The loop of KafkaEventConsumer hands every message to the handler, in their order.
use mathlib.Core.List.{append-nil, append_assoc}
use coffee_buddy.Prelude.{
  ◌≡◌, ◌≢◌, refl, sym, ap, ◌∙◌, inl, inr, true, false, Option, none, some, List, ℕ, [], ◌∷◌, ◌++◌,
  Bool-cases, Option-cases,
}
use coffee_buddy.Effects.{Exec, Result, ok, raised, and_then}
use coffee_buddy.Text.{Text}
use coffee_buddy.Kafka.Models.{KafkaEvent}
use coffee_buddy.Kafka.Producer.{Status, success, error}
use coffee_buddy.Kafka.Consumer.{
  Failure, exception, cancelled, Arrival, Ending, exhausted, client_failed, task_cancelled,
  Consuming, handle, after_handler, process, consume_loop,
}

-- The messages before the first that comes after the stop event.
abbrev pub before_stop : List Arrival → List (List ℕ)
before_stop [] = []
before_stop (m ∷ ms) = elim m.stopped [ true ↦ [] | false ↦ m.value ∷ before_stop ms ]

abbrev pub status_of : Result Failure Unit → Status
status_of (ok u) = success
status_of (raised e) = error

module _ {S D : Type 0} (validate_json : List ℕ → Option (KafkaEvent D))
    (handler : KafkaEvent D → Exec S Failure Unit) (topic : Text) where
  -- What one message makes of the handler's state, and how it is counted.
  abbrev pub handled_event : Option (KafkaEvent D) → S → S × Status
  handled_event none s = (s, error)
  handled_event (some event) s = ((handler event s).1, status_of (handler event s).0)

  abbrev pub handled : List ℕ → S → S × Status
  handled value = handled_event (validate_json value)

  -- The same for one message after another.
  abbrev pub handled_all : List (List ℕ) → S → S × List (Text × Status)
  handled_all [] s = (s, [])
  handled_all (v ∷ vs) s =
      let rest = handled_all vs (handled v s).0 in (rest.0, (topic, (handled v s).1) ∷ rest.1)

  abbrev with_handled : Consuming S → S × List (Text × Status) → Consuming S
  with_handled c r = record c { inner = r.0; consume_total = c.consume_total ++ r.1 }

  module _ (never : (event : KafkaEvent D) (s : S) → (handler event s).0 ≢ raised cancelled) where
    after_handler_lem :
        (c : Consuming S) (r : Result Failure Unit × S)
        → r.0 ≢ raised cancelled
        → after_handler validate_json handler topic c r ≡ (
          ok tt,
          record c { inner = r.1; consume_total = c.consume_total ++ (topic, status_of r.0) ∷ [] },
        )
    after_handler_lem c (ok u, s) h = refl
    after_handler_lem c (raised exception, s) h = refl
    after_handler_lem c (raised cancelled, s) h = absurd (h refl)

    process_lem :
        (value : List ℕ) (c : Consuming S)
        → process validate_json handler topic value c ≡ (
          ok tt,
          record c {
            inner = (handled value c.inner).0;
            consume_total = c.consume_total ++ (topic, (handled value c.inner).1) ∷ [];
          },
        )
    process_lem value c = elim (Option-cases (validate_json value)) [
      | inl e ↦ rw e refl
      | inr (event, e) ↦ rw e (after_handler_lem c (handler event c.inner) (never event c.inner))
    ]

    -- Where the task is not cancelled and the client raises nothing, the loop returns: each message
    -- before the stop event has been handed to the handler, in their order, whatever became of those
    -- before it, and each is counted, as a success exactly if it could be read and the handler
    -- returned; no message after the stop event is handled.
    pub consume_loop_lem :
        (ms : List Arrival) (c : Consuming S)
        → consume_loop validate_json handler topic ms exhausted c
          ≡ (ok tt, with_handled c (handled_all (before_stop ms) c.inner))
    unfolding consume_loop
    consume_loop_lem [] c =
        ap (λ xs. (ok tt, record c { consume_total = xs })) (sym (append-nil c.consume_total))
    consume_loop_lem (m ∷ ms) c = elim (Bool-cases m.stopped) [
      | inl e ↦
          rw e
            (ap (λ xs. (ok tt, record c { consume_total = xs })) (sym (append-nil c.consume_total)))
      | inr e ↦
          let (s, status) = handled m.value c.inner in
          let d : Consuming S = record c {
            inner = s;
            consume_total = c.consume_total ++ (topic, status) ∷ [];
          } in
          rw (e, process_lem m.value c)
            (consume_loop_lem ms d
              ∙ ap
                  (λ xs. (
                    ok tt,
                    record d { inner = (handled_all (before_stop ms) s).0; consume_total = xs },
                  ))
                  (append_assoc c.consume_total ((topic, status) ∷ [])
                    (handled_all (before_stop ms) s).1))
    ]

  module _ (P : S → Type 0)
      (keep : (event : KafkaEvent D) (s : S) → P s → P (handler event s).1) where
    after_handler_keeps :
        (c : Consuming S) (r : Result Failure Unit × S)
        → P r.1
        → P (after_handler validate_json handler topic c r).1.inner
    after_handler_keeps c (ok u, s) h = h
    after_handler_keeps c (raised exception, s) h = h
    after_handler_keeps c (raised cancelled, s) h = h

    handle_keeps :
        (o : Option (KafkaEvent D)) (c : Consuming S)
        → P c.inner
        → P (handle validate_json handler topic o c).1.inner
    handle_keeps none c h = h
    handle_keeps (some event) c h =
        after_handler_keeps c (handler event c.inner) (keep event c.inner h)

    -- What the handler keeps, the loop keeps, however it ends.
    pub consume_loop_keeps :
        (ms : List Arrival) (ending : Ending) (c : Consuming S)
        → P c.inner
        → P (consume_loop validate_json handler topic ms ending c).1.inner
    unfolding consume_loop
    consume_loop_keeps [] exhausted c h = h
    consume_loop_keeps [] client_failed c h = h
    consume_loop_keeps [] task_cancelled c h = h
    consume_loop_keeps (m ∷ ms) ending c h = elim (Bool-cases m.stopped) [
      | inl e ↦ rw e h
      | inr e ↦ rw e (
          continued (λ d. consume_loop_keeps ms ending d)
            (process validate_json handler topic m.value c)
            (handle_keeps (validate_json m.value) c h))
    ]
      where
        continued :
            ((d : Consuming S)
              → P d.inner
              → P (consume_loop validate_json handler topic ms ending d).1.inner)
            → (r : Result Failure Unit × Consuming S) → P r.1.inner
            → P (and_then r.0 (λ u. consume_loop validate_json handler topic ms ending) r.1).1.inner
        continued rec (ok u, d) k = rec d k
        continued rec (raised e, d) k = k
