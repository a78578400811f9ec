-- ===== src/Slack/Messages.antt =====
-- api/slack_runs/messages.py
use coffee_buddy.Prelude.{Bool, true, Option, none, some, [], ◌∷◌, ◌++◌}
use coffee_buddy.Text.{Text, codes}
use coffee_buddy.Time.{DateTime}
use coffee_buddy.Slack.Models.{Run}

-- The values that the program builds for JSON.
mutual
  pub data Json : Type 0 where
    text : Text → Json
    bool : Bool → Json
    array : Items → Json
    object : Fields → Json

  pub data Items : Type 0 where
    nil : Items
    item : Json → Items → Items

  pub data Fields : Type 0 where
    end : Fields
    field : (key : Text) → Json → Fields → Fields

-- `{"type": kind, "text": t}`
abbrev pub typed : (kind t : Text) → Json
typed kind t = object (field (codes "type") (text kind) (field (codes "text") (text t) end))

abbrev pub mrkdwn : Text → Json
mrkdwn = typed (codes "mrkdwn")

abbrev pub plain_text : Text → Json
plain_text = typed (codes "plain_text")

abbrev pub header : Json
header = object (
    field (codes "type") (text (codes "header")) (
      field (codes "text")
        (object (
          field (codes "type") (text (codes "plain_text")) (
            field (codes "text") (text (codes "☕ Coffee run started!"))
              (field (codes "emoji") (bool true) end))))
        end))

abbrev pub section_with : (key : Text) → Json → Json
section_with key value =
    object (field (codes "type") (text (codes "section")) (field key value end))

abbrev pub people : Run → Json
people run = section_with (codes "fields") (
    array (
      item (mrkdwn (codes "*Channel*\n<" ++ (run.channel_id ++ codes ">")))
        (item (mrkdwn (codes "*Initiator*\n<@" ++ (run.initiator_user_id ++ codes ">"))) nil)))

abbrev pub context : Run → Json
context run = object (
    field (codes "type") (text (codes "context")) (
      field (codes "elements")
        (array (
          item (mrkdwn (codes "Run ID: `" ++ (run.id ++ codes "`")))
            (item (mrkdwn (codes "Correlation: `" ++ (run.correlation_id ++ codes "`"))) nil)))
        end))

abbrev pub pickup_section : (display : Text) → Json
pickup_section display =
    section_with (codes "fields") (array (item (mrkdwn (codes "*Pickup time*\n" ++ display)) nil))

-- `if run.pickup_note:`
abbrev pub note_section : Option Text → Items → Items
note_section none rest = rest
note_section (some []) rest = rest
note_section (some (c ∷ cs)) rest =
    item (section_with (codes "text") (mrkdwn (codes "*Pickup note*\n" ++ (c ∷ cs)))) rest

abbrev pub button : (label action : Text) → Json
button label action = object (
    field (codes "type") (text (codes "button"))
      (field (codes "text") (plain_text label) (field (codes "action_id") (text action) end)))

abbrev pub danger_button : (label action : Text) → Json
danger_button label action = object (
    field (codes "type") (text (codes "button")) (
      field (codes "text") (plain_text label) (
        field (codes "style") (text (codes "danger"))
          (field (codes "action_id") (text action) end))))

abbrev pub actions : Json
actions = object (
    field (codes "type") (text (codes "actions")) (
      field (codes "elements")
        (array (
          item (button (codes "Place order") (codes "order:new")) (
            item (button (codes "Use last order") (codes "order:reuse"))
              (item (danger_button (codes "Close run") (codes "run:close")) nil))))
        end))

-- The blocks from the pickup time on
abbrev pub blocks_after : (pickup_note : Option Text) → Items
blocks_after pickup_note = note_section pickup_note (item actions nil)

abbrev pub created : Run → Items → Json
created run rest = object (
    field (codes "response_type") (text (codes "in_channel")) (
      field (codes "text") (text (codes "Coffee run is live.")) (
        field (codes "blocks") (array (item header (item (people run) (item (context run) rest))))
          end)))

-- `display t` is `t.astimezone(timezone.utc).strftime("%Y-%m-%d %H:%M UTC")`, or `none` where that
-- raises an `OverflowError`, as then the builder does.
abbrev pub with_pickup : (display : DateTime → Option Text) → Run → Option DateTime → Option Json
with_pickup display run none = some (created run (blocks_after run.pickup_note))
with_pickup display run (some t) = elim (display t) [
  | none ↦ none
  | some shown ↦ some (created run (item (pickup_section shown) (blocks_after run.pickup_note)))
]

unfoldable pub build_run_created : (display : DateTime → Option Text) → Run → Option Json
build_run_created display run = with_pickup display run run.pickup_time
