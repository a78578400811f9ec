-- ===== src/Kafka/Producer/Count.antt =====
-- What KafkaEventProducer counts, and when it sends.
use coffee_buddy.Prelude.{
  ℕ, ◌+◌, ◌≡◌, refl, sym, ap, ◌∙◌, inl, inr, true, false, Option, List, [], ◌∷◌, ◌++◌, Bool-cases,
}
use coffee_buddy.Effects.{ok, raised}
use coffee_buddy.Text.{Text}
use coffee_buddy.Kafka.Models.{KafkaEvent}
use coffee_buddy.Kafka.Topics.{TopicConfig}
use coffee_buddy.Kafka.Producer.{
  Status, success, error, client_failed, Message, Producer, start, stop, send,
}

-- The topics of the sends that were counted as a success, and those of the messages sent.
abbrev pub successes : List (Text × Status) → List Text
successes [] = []
successes ((t, success) ∷ xs) = t ∷ successes xs
successes ((t, error) ∷ xs) = successes xs

abbrev pub topics_of : List Message → List Text
topics_of [] = []
topics_of (m ∷ ms) = m.topic ∷ topics_of ms

-- The messages that the client has taken are counted as successes, in their order, and nothing else.
abbrev pub IsCounted : Producer → Type 0
IsCounted p = successes p.produce_total ≡ topics_of p.produced

successes-append_success :
    (t : Text) (xs : List (Text × Status))
    → successes (xs ++ (t, success) ∷ []) ≡ successes xs ++ t ∷ []
successes-append_success t [] = refl
successes-append_success t ((u, success) ∷ xs) = ap (λ r. u ∷ r) (successes-append_success t xs)
successes-append_success t ((u, error) ∷ xs) = successes-append_success t xs

successes-append_error :
    (t : Text) (xs : List (Text × Status)) → successes (xs ++ (t, error) ∷ []) ≡ successes xs
successes-append_error t [] = refl
successes-append_error t ((u, success) ∷ xs) = ap (λ r. u ∷ r) (successes-append_error t xs)
successes-append_error t ((u, error) ∷ xs) = successes-append_error t xs

topics_of-append :
    (m : Message) (ms : List Message) → topics_of (ms ++ m ∷ []) ≡ topics_of ms ++ m.topic ∷ []
topics_of-append m [] = refl
topics_of-append m (x ∷ ms) = ap (λ r. x.topic ∷ r) (topics_of-append m ms)

-- One call of the harness.
pub data Step {D : Type 0} (as_bytes : KafkaEvent D → List ℕ) (utf8 : Text → List ℕ)
    : Producer → Producer → Type 0 where
  starts : (p : Producer) → Step as_bytes utf8 p (start p).1
  stops : (p : Producer) → Step as_bytes utf8 p (stop p).1
  sends :
      (topic : TopicConfig) (event : KafkaEvent D) (key : Option Text)
      (headers : List (Text × List ℕ)) (p : Producer)
      → Step as_bytes utf8 p (send as_bytes utf8 topic event key headers p).1

pub data Reach {D : Type 0} (as_bytes : KafkaEvent D → List ℕ) (utf8 : Text → List ℕ) (p : Producer)
    : Producer → Type 0 where
  here : Reach as_bytes utf8 p p
  next :
      {q r : Producer} → Reach as_bytes utf8 p q → Step as_bytes utf8 q r → Reach as_bytes utf8 p r

module _ {D : Type 0} {as_bytes : KafkaEvent D → List ℕ} {utf8 : Text → List ℕ} where
  Step-IsCounted : {p q : Producer} → Step as_bytes utf8 p q → IsCounted p → IsCounted q
  unfolding start stop send
  Step-IsCounted (starts p) h = elim (Bool-cases p.connected) [
    | inl e ↦ rw e h
    | inr e ↦ elim (Bool-cases (p.replies p.calls)) [ inl r ↦ rw (e, r) h | inr r ↦ rw (e, r) h ]
  ]
  Step-IsCounted (stops p) h = elim (Bool-cases p.connected) [
    | inr e ↦ rw e h
    | inl e ↦ elim (Bool-cases (p.replies p.calls)) [ inl r ↦ rw (e, r) h | inr r ↦ rw (e, r) h ]
  ]
  Step-IsCounted (sends topic event key headers p) h = elim (Bool-cases p.connected) [
    | inr e ↦ rw e h
    | inl e ↦ elim (Bool-cases (p.replies p.calls)) [
      | inl r ↦
          rw (e, r)
            (successes-append_success topic.name p.produce_total
              ∙ ap (λ xs. xs ++ topic.name ∷ []) h
              ∙ sym (topics_of-append _ p.produced))
      | inr r ↦ rw (e, r) (successes-append_error topic.name p.produce_total ∙ h)
    ]
  ]

-- However the producer is started, stopped and made to send, and whichever calls of the client
-- raise: the successes that are counted are those of the messages that the client has taken.
pub Reach-IsCounted :
    {D : Type 0} (as_bytes : KafkaEvent D → List ℕ) (utf8 : Text → List ℕ) {p q : Producer}
    → Reach as_bytes utf8 p q
    → IsCounted p
    → IsCounted q
Reach-IsCounted as_bytes utf8 here h = h
Reach-IsCounted as_bytes utf8 (next r st) h = Step-IsCounted st (Reach-IsCounted as_bytes utf8 r h)

-- After a start in which the client raises, starting again returns at once: the client is not
-- started, although the producer takes itself for connected.
pub start-start_failed :
    (p : Producer)
    → p.connected ≡ false
    → p.replies p.calls ≡ false
    → (q : Producer) × (start p ≡ (raised client_failed, q))
      × (q.connected ≡ true)
      × (start q ≡ (ok tt, q))
unfolding start
start-start_failed p off fails =
    (record p { calls = p.calls + 1; connected = true }, rw (off, fails) refl, refl, refl)
