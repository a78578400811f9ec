-- ===== src/Tests/Slack.antt =====
-- A slash command, from its request to the run.
use coffee_buddy.Prelude.{
  ℕ, ◌+◌, ◌*◌, ◌≡◌, ◌≢◌, ◌↔◌, refl, Bool, true, false, Option, none, some, List, [], ◌∷◌, ◌==◌,
  length, if◌then◌else◌, arith, Bool-cases, inl, inr,
}
use coffee_buddy.Effects.{ok, raised}
use coffee_buddy.Text.{Text, codes, text_eq, strip, strip_by, trim_start, trim_end, is_space}
use coffee_buddy.Text.Dict.{lookup}
use coffee_buddy.Text.Utf8.{encode, decode, decode_from, read, utf8_char}
use coffee_buddy.Number.{pos, int_of_text, signed, read_digits}
use coffee_buddy.Time.{DateTime, utc, minute}
use coffee_buddy.Slack.Models.{SlackCommandPayload, RunCommandOptions, has_errors}
use coffee_buddy.Slack.Signature.{
  Verifier, rejected, stale_timestamp, verify, compute_signature, is_stale, is_ascii,
}
use coffee_buddy.Slack.Signature.Genuine.{IsGenuine, verify_iff}
use coffee_buddy.Slack.Shlex.{no_closing_quotation, split, split_from}
use coffee_buddy.Slack.Parsers.{
  cut, day, parse_pickup_time, parse_command_text, apply_token, apply_tokens,
}
use coffee_buddy.Slack.Parsers.Options.{
  last_time, last_note, complaints, listed, parse_command_text_lem,
}
use coffee_buddy.Slack.Parsers.Bounds.{IsFit, parse_command_text-IsFit}
use coffee_buddy.Slack.Messages.{Json, build_run_created, created, blocks_after}
use coffee_buddy.Slack.Service.{
  Desk, SessionFactory, RunEventPublisher, commit_failed, handle, event_of,
}
use coffee_buddy.Slack.Service.Handled.{new_run}
use coffee_buddy.Slack.Dependencies.{DependencyState, open_session, commit_after, with_session}
use coffee_buddy.Slack.Dependencies.Session.{IsSettled, with_session-IsSettled, with_session-handle}
use coffee_buddy.Slack.Router.{Request, Library, handle_slack_command, serve_request}
use coffee_buddy.Slack.Router.Stored.{Leaves, serve_request-Leaves}

abbrev digest : (secret message : List ℕ) → Text
digest secret message = if length message == 21 then codes "a1" else codes "b2"

digest-ascii : (secret message : List ℕ) → is_ascii (digest secret message) ≡ true
digest-ascii secret message = elim (Bool-cases (length message == 21)) [
  | inl e ↦ rw e refl
  | inr e ↦ rw e refl
]

abbrev verifier : Verifier
verifier = record { secret = 115 ∷ []; tolerance = pos 300 }

-- 1000 seconds and one microsecond
abbrev unix : ℕ
unix = 1000000001

abbrev form : List ℕ
form = codes "text=note%3Dhot"

verify_ok : verify digest verifier unix (some (codes "900")) (some (codes "v0=b2")) form ≡ ok tt
unfolding verify compute_signature is_stale int_of_text signed read_digits strip strip_by trim_start
    trim_end is_space encode decode decode_from read utf8_char text_eq
verify_ok = refl

verify_stale :
    verify digest verifier unix (some (codes "700")) (some (codes "v0=b2")) form
    ≡ raised (rejected stale_timestamp)
unfolding verify compute_signature is_stale int_of_text signed read_digits strip strip_by trim_start
    trim_end is_space
verify_stale = refl

verify_iff_example :
    (verify digest verifier unix (some (codes "900")) (some (codes "v0=b2")) form ≡ ok tt)
    ↔ IsGenuine digest verifier unix form (some (codes "900")) (some (codes "v0=b2"))
verify_iff_example =
    verify_iff digest verifier unix form (digest-ascii verifier.secret) (some (codes "900"))
      (some (codes "v0=b2"))

-- The command names are in lower case here, and no text is in the format of ISO 8601.
abbrev same : Text → Text
same t = t

abbrev no_iso : Text → Option DateTime
no_iso t = none

abbrev command_text : Text
command_text = codes " pickup=09:30 note='two cups' sugar=1 please"

abbrev tokens : List Text
tokens = codes "pickup=09:30" ∷ codes "note=two cups" ∷ codes "sugar=1" ∷ codes "please" ∷ []

abbrev options : RunCommandOptions
options = record {
  pickup_time = some (utc (day + 570 * minute));
  pickup_note = some (codes "two cups");
  errors = some (codes "Unknown parameter 'sugar'." ∷ []);
}

strip_text : (strip command_text ≢ []) × (split (strip command_text) ≡ ok tokens)
unfolding strip strip_by trim_start trim_end is_space split split_from
strip_text = ((λ e. absurd (ground arith)), refl)

parses : parse_command_text same no_iso (day + 5) command_text ≡ ok options
unfolding parse_command_text strip strip_by trim_start trim_end is_space split split_from
    apply_tokens apply_token cut parse_pickup_time int_of_text signed read_digits text_eq
parses = refl

unbalanced : parse_command_text same no_iso day (codes "note='two") ≡ raised no_closing_quotation
unfolding parse_command_text strip strip_by trim_start trim_end is_space split split_from
unbalanced = refl

parse_command_text_lem_example :
    parse_command_text same no_iso (day + 5) command_text
    ≡ ok (record {
      pickup_time = last_time same no_iso (day + 5) none tokens;
      pickup_note = last_note same no_iso (day + 5) none tokens;
      errors = listed (complaints same no_iso (day + 5) tokens);
    })
parse_command_text_lem_example =
    parse_command_text_lem same no_iso (day + 5) command_text tokens strip_text.0 strip_text.1

parse_command_text-IsFit_example : IsFit options
parse_command_text-IsFit_example =
    parse_command_text-IsFit same no_iso (day + 5) command_text options parses

-- A channel and a user, and a database that takes rows but no commit.
abbrev command : SlackCommandPayload
command = record {
  token = [];
  team_id = [];
  channel_id = codes "C7";
  channel_name = [];
  user_id = codes "U1";
  user_name = [];
  text = codes "note=hot";
  trigger_id = [];
  response_url = [];
}

abbrev hot : RunCommandOptions
hot = record { pickup_time = none; pickup_note = some (codes "hot"); errors = none }

abbrev commits_when : Bool → SessionFactory
commits_when b = record { flushes = λ r. true; commits = λ rs. b }

abbrev publisher : RunEventPublisher
publisher e = true

abbrev desk : Desk
desk = record {
  connections = record {
    uuid4 = λ n. if n == 0 then codes "r" else codes "c";
    clock = day + 7;
    isoformat = λ t. codes "then";
    display = λ t. some (codes "then");
  };
  database = commits_when true;
  uuids = 0;
  pending = [];
  committed = [];
  published = [];
  closed = true;
}

with_session-IsSettled_example :
    IsSettled
      (commits_when true)
      commit_failed
      (handle publisher command hot (open_session (commits_when true) desk))
      (with_session (commits_when true) commit_failed (handle publisher command hot) desk)
with_session-IsSettled_example =
    with_session-IsSettled (commits_when true) commit_failed (handle publisher command hot) desk

shown :
    (j : Json) × (build_run_created desk.connections.display (new_run desk command hot) ≡ some j)
unfolding build_run_created
shown = (created (new_run desk command hot) (blocks_after (some (codes "hot"))), refl)

with_session-handle_example :
    (g : Desk) × (with_session
        (commits_when false)
        commit_failed
        (handle publisher command hot)
        desk
      ≡ (raised commit_failed, g))
    × (g.committed ≡ [])
    × (g.published ≡ event_of desk.connections.isoformat (new_run desk command hot) ∷ [])
with_session-handle_example =
    with_session-handle (commits_when false) publisher command hot desk shown.0 refl refl shown.1
      refl

abbrev library : Library
library = record {
  hexdigest = digest;
  lower = same;
  fromisoformat = no_iso;
  parse_qs = λ t.
      (codes "channel_id", (codes "C7", []))
      ∷ (codes "user_id", (codes "U1", []))
      ∷ (codes "text", (codes "note=hot", []))
      ∷ [];
  unix_time = unix;
}

abbrev state : DependencyState
state = record {
  settings = some (record {
    slack_signing_secret = codes "s";
    database_url = [];
    kafka_bootstrap_servers = [];
    run_events_topic = [];
    app_name = [];
    slack_timestamp_tolerance_seconds = pos 300;
  });
  session_factory = some (commits_when true);
  event_publisher = some publisher;
}

abbrev request : Request
request = record { body = form; timestamp = some (codes "900"); signature = some (codes "v0=b2") }

-- This request adds the run of the command.
serve_request_stores :
    (serve_request library state request desk).1.committed ≡ new_run desk command hot ∷ []
unfolding serve_request handle_slack_command with_session commit_after handle has_errors
    parse_command_text strip strip_by trim_start trim_end is_space split split_from apply_tokens
    apply_token cut parse_pickup_time int_of_text signed read_digits text_eq verify
    compute_signature is_stale encode decode decode_from read utf8_char lookup build_run_created
serve_request_stores = refl

serve_request-Leaves_example :
    Leaves library state request desk (serve_request library state request desk)
serve_request-Leaves_example = serve_request-Leaves library state request desk
