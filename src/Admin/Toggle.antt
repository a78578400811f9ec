-- ===== src/Admin/Toggle.antt =====
-- `AdminService.set_channel_enabled`, called twice: what the second call finds and logs.
use coffee_buddy.Prelude.{
  ◌+◌, ◌≡◌, ◌≢◌, ◌⊎◌, Bool, true, false, Option, some, [], ◌∷◌, ◌++◌, if◌then◌else◌,
}
use coffee_buddy.Prelude.Rows.{select, update}
use coffee_buddy.Text.{Text, codes}
use coffee_buddy.Text.Dict.{lookup}
use coffee_buddy.Uuid.{to_text}
use coffee_buddy.Schema.{Session, Channel, ChannelAdminAction, enable, disable, flag, text, one}
use coffee_buddy.Admin.Models.{AdminActor, ChannelStateChangeResult}
use coffee_buddy.Admin.Service.{named, channel_row, differs, reason_text, action_row}

module _ (name : Text) (channel : Channel) (f : Channel → Channel)
    (keep : (c : Channel) → named name (f c) ≡ named name c) where
  changed_row : Channel → Channel
  changed_row c = if channel_row channel c then f c else c

module _ (is_authorized : AdminActor → Bool) (name : Text) where
  -- The row that a call logs.
  abbrev entry : Channel → AdminActor → Bool → Option Text → ChannelAdminAction
  entry channel actor enabled reason =
      action_row channel.id actor.user_id (if enabled then enable else disable) (
        (codes "reason", one (text (reason_text reason)))
        ∷ (codes "previous_state", one (flag channel.enabled))
        ∷ (codes "changed", one (flag (differs channel.enabled enabled)))
        ∷ [])

  abbrev toggled : Session → Bool → Channel → Channel
  toggled s enabled c = record c { enabled = enabled; updated_at = s.outside.clock s.clock_reads }

  abbrev after : Channel → AdminActor → Bool → Option Text → Session → Session
  after channel actor enabled reason s = record s {
    clock_reads = s.clock_reads + 1;
    channels = update (channel_row channel) (toggled s enabled) s.channels;
    admin_actions = s.admin_actions ++ entry channel actor enabled reason ∷ [];
  }

  abbrev answer : Channel → Bool → ChannelStateChangeResult
  answer channel enabled = record {
    channel_id = to_text channel.id;
    enabled = enabled;
    action_type = if enabled then enable else disable;
  }

  -- What a call by `actor` does to a session where the channel is in the state `before`.
  pub record Toggles (before enabled : Bool) (actor : AdminActor) (s t : Session)
      (result : ChannelStateChangeResult) : Type 0 where
    pub channel : Channel
    pub row : ChannelAdminAction
    pub found : select (named name) t.channels ≡ channel ∷ []
    pub enabled_now : channel.enabled ≡ enabled
    pub told : result.enabled ≡ enabled
    pub logged : t.admin_actions ≡ s.admin_actions ++ row ∷ []
    pub of_channel : row.channel_id ≡ channel.id
    pub by_actor : row.admin_user_id ≡ actor.user_id
    pub action_type :
        ((enabled ≡ true) × (row.action_type ≡ enable))
        ⊎ ((enabled ≡ false) × (row.action_type ≡ disable))
    pub previous_state :
        lookup (codes "previous_state") row.action_details ≡ some (one (flag before))
    pub changed :
        ((before ≡ enabled)
          × (lookup (codes "changed") row.action_details ≡ some (one (flag false))))
        ⊎ ((before ≢ enabled)
            × (lookup (codes "changed") row.action_details ≡ some (one (flag true))))
