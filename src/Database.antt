-- ===== src/Database.antt =====
-- infra/db/session.py: where the database is found. SQLAlchemy's engine stays outside.
pub mod Credentials
pub mod Vault
pub mod Config
