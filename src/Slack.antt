-- ===== src/Slack.antt =====
-- api/slack_runs: the slash command that starts a run.
pub mod Models
pub mod Signature
pub mod Shlex
pub mod Parsers
pub mod Messages
pub mod Service
pub mod Dependencies
pub mod Router
