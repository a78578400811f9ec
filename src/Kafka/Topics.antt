-- ===== src/Kafka/Topics.antt =====
-- infra/kafka/topics.py
use coffee_buddy.Prelude.{◌*◌, ◌≡◌, refl, ◌∙◌, false, none, some, List, [], ◌∷◌, arith}
use coffee_buddy.Text.{Text, codes, text_eq}
use coffee_buddy.Text.Dict.{Dict, lookup, merge, IsDict, lookup-merge}
use coffee_buddy.Number.{ℤ, pos, int_text, int_of_text}
use coffee_buddy.Number.RoundTrip.{int_of_text-int_text}

pub record TopicConfig : Type 0 where
  pub name : Text
  pub partitions : ℤ
  pub replication_factor : ℤ
  pub retention_ms : ℤ
  pub cleanup_policy : Text
  pub description : Text
  pub configs : Dict Text

-- The dictionary that `render_admin_request` returns.
pub record AdminRequest : Type 0 where
  pub topic : Text
  pub num_partitions : ℤ
  pub replication_factor : ℤ
  pub configs : Dict Text

abbrev pub base_configs : TopicConfig → Dict Text
base_configs t =
    (codes "retention.ms", int_text t.retention_ms)
    ∷ (codes "cleanup.policy", t.cleanup_policy)
    ∷ []

unfoldable pub render_admin_request : TopicConfig → AdminRequest
render_admin_request t = record {
  topic = t.name;
  num_partitions = t.partitions;
  replication_factor = t.replication_factor;
  configs = merge (base_configs t) t.configs;
}

pub record TopicAclRequirement : Type 0 where
  pub principal : Text
  pub operation : Text
  pub resource : Text
  pub description : Text

abbrev pub run_events_topic : TopicConfig
run_events_topic = record {
  name = codes "coffeebuddy.run.events";
  partitions = pos 3;
  replication_factor = pos 3;
  retention_ms = pos (7 * 24 * 60 * 60 * 1000);
  cleanup_policy = codes "delete";
  description = codes "Lifecycle events for coffee runs (created, updated, closed).";
  configs = (codes "min.insync.replicas", codes "2") ∷ [];
}

abbrev pub reminder_events_topic : TopicConfig
reminder_events_topic = record {
  name = codes "coffeebuddy.reminder.events";
  partitions = pos 3;
  replication_factor = pos 3;
  retention_ms = pos (24 * 60 * 60 * 1000);
  cleanup_policy = codes "delete";
  description = codes "Reminder scheduling payloads (runner reminders, last call alerts).";
  configs = (codes "min.insync.replicas", codes "2") ∷ [];
}

abbrev pub topic_registry : List TopicConfig
topic_registry = run_events_topic ∷ reminder_events_topic ∷ []

abbrev pub acl_requirements : List TopicAclRequirement
acl_requirements =
    (record {
      principal = codes "User:svc_coffeebuddy_app";
      operation = codes "Describe,Read,Write";
      resource = codes "Topic:coffeebuddy.run.events";
      description = codes "API service produces run lifecycle events.";
    })
    ∷ (record {
      principal = codes "User:svc_coffeebuddy_reminder_worker";
      operation = codes "Describe,Read,Write";
      resource = codes "Topic:coffeebuddy.reminder.events";
      description = codes "Reminder worker consumes reminder events and emits outcomes.";
    })
    ∷ []

-- What a request must say of the topic: the extra settings as they are; beside them the retention
-- time, as a text that reads as its number, and the clean-up policy.
pub record Renders (t : TopicConfig) (r : AdminRequest) : Type 0 where
  pub topic : r.topic ≡ t.name
  pub extra : (k v : Text) → lookup k t.configs ≡ some v → lookup k r.configs ≡ some v
  pub retention :
      lookup (codes "retention.ms") t.configs ≡ none
      → (v : Text) × (lookup (codes "retention.ms") r.configs ≡ some v)
        × (int_of_text v ≡ some t.retention_ms)
  pub policy :
      lookup (codes "cleanup.policy") t.configs ≡ none
      → lookup (codes "cleanup.policy") r.configs ≡ some t.cleanup_policy
  pub only :
      (k : Text)
      → lookup k t.configs ≡ none
      → text_eq (codes "retention.ms") k ≡ false
      → text_eq (codes "cleanup.policy") k ≡ false
      → lookup k r.configs ≡ none

base-retention :
    (t : TopicConfig)
    → lookup (codes "retention.ms") (base_configs t) ≡ some (int_text t.retention_ms)
unfolding lookup text_eq
base-retention t = refl

base-policy :
    (t : TopicConfig) → lookup (codes "cleanup.policy") (base_configs t) ≡ some t.cleanup_policy
unfolding lookup text_eq
base-policy t = refl

base-only :
    (t : TopicConfig) (k : Text)
    → text_eq (codes "retention.ms") k ≡ false
    → text_eq (codes "cleanup.policy") k ≡ false
    → lookup k (base_configs t) ≡ none
unfolding lookup
base-only t k a b = rw (a, b) refl

-- The request for a topic has the extra settings of the topic, whatever they override; where they do
-- not override them, it has the retention time, whose text reads as the number, and the clean-up
-- policy; and it has no other setting.
pub render_admin_request-Renders :
    (t : TopicConfig) → IsDict t.configs → Renders t (render_admin_request t)
unfolding render_admin_request
render_admin_request-Renders t h = record {
  topic = refl;
  extra = λ k v e. ground (arith, lookup-merge k (base_configs t) t.configs h);
  retention = λ e. (
    int_text t.retention_ms,
    lookup-merge (codes "retention.ms") (base_configs t) t.configs h ∙ (rw e (base-retention t)),
    int_of_text-int_text t.retention_ms,
  );
  policy = λ e.
      lookup-merge (codes "cleanup.policy") (base_configs t) t.configs h ∙ (rw e (base-policy t));
  only = λ k e a b. lookup-merge k (base_configs t) t.configs h ∙ (rw e (base-only t k a b));
}
