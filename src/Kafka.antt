-- ===== src/Kafka.antt =====
-- infra/kafka/: topics, settings and events, and the harnesses around the Kafka client.
pub mod Topics
pub mod Config
pub mod Models
pub mod Producer
pub mod Consumer
