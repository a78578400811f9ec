-- ===== src/Tests/Admin.antt =====
-- The channel of the example, administered.
use coffee_buddy.Prelude.{
  is_some, ◌≡◌, ◌↔◌, ◌⊎◌, map, refl, Bool, true, false, none, some, [], ◌∷◌, arith, All,
}
use coffee_buddy.Prelude.Rows.{select}
use coffee_buddy.Effects.{raised}
use coffee_buddy.Text.{Text, codes, text_eq, strip, strip_by, trim_start, trim_end, is_space}
use coffee_buddy.Text.Dict.{Dict, lookup}
use coffee_buddy.Schema.{Session}
use coffee_buddy.Number.{pos, negsuc}
use coffee_buddy.Admin.Models.{
  AdminActor, AdminError, ChannelConfigPatch, config_validation, out_of_range,
}
use coffee_buddy.Admin.Config.{build_config_updates}
use coffee_buddy.Admin.Service.{get_channel, update_channel_config}
use coffee_buddy.Admin.Ranges.{IsConfigured}
use coffee_buddy.Admin.Update.{update_channel_config-IsConfigured, update_channel_config-barred}
use coffee_buddy.Admin.Authorizer
use coffee_buddy.Admin.Authorizer.{elem, stripped, split_at, from_env, is_authorized}
use coffee_buddy.Admin.Authorizer.Allowed.{InTrimmed, HasRole, listed_ids, is_authorized-from_env}
use coffee_buddy.Tests.Samples.{outside, start}

abbrev admin : AdminActor
admin = record { user_id = codes "a"; slack_user_id = codes "U1"; slack_roles = codes "admin" ∷ [] }

abbrev guest : AdminActor
guest = record { user_id = codes "g"; slack_user_id = codes "U2"; slack_roles = [] }

abbrev has_role : AdminActor → Bool
has_role actor = elim actor.slack_roles [ [] ↦ false | ◌∷◌ r rs ↦ true ]

abbrev coffee : Text
coffee = codes "C7"

abbrev patch : ChannelConfigPatch
patch = record {
  reminder_offset_minutes = some (pos 10);
  fairness_window_runs = none;
  data_retention_days = none;
  reminders_enabled = some false;
  last_call_enabled = none;
  last_call_lead_minutes = some (pos 3);
}

abbrev negative : ChannelConfigPatch
negative = record patch { reminder_offset_minutes = some (negsuc 4) }

channels-IsConfigured : All IsConfigured start.channels
channels-IsConfigured = (
  record {
    reminder_offset = (omega arith, omega arith);
    fairness_window = (omega arith, omega arith);
    retention = (omega arith, omega arith);
    lead = tt;
  },
  tt,
)

update_channel_config-IsConfigured_example :
    All IsConfigured (update_channel_config has_role coffee admin patch start).1.channels
update_channel_config-IsConfigured_example =
    update_channel_config-IsConfigured has_role coffee admin patch start channels-IsConfigured

update_negative :
    update_channel_config has_role coffee admin negative start
    ≡ (raised (config_validation (codes "reminder_offset_minutes") (out_of_range 1 60)), start)
unfolding update_channel_config get_channel build_config_updates select text_eq
update_negative = refl

-- A database in which `created_at` may not be NULL.
abbrev strict : Session
strict = record start { outside = record outside { takes_action = λ a. is_some a.created_at } }

abbrev refused : Session
refused = (update_channel_config has_role coffee admin patch strict).1

update_channel_config-barred_example :
    (e : AdminError) × (update_channel_config has_role coffee guest patch start ≡ (raised e, start))
update_channel_config-barred_example =
    update_channel_config-barred has_role coffee guest patch start refl

-- An environment that lists one user, among blanks.
abbrev environ : Dict Text
environ = (codes "COFFEEBUDDY_ADMIN_USER_IDS", codes " U2 ,, U9") ∷ []

abbrev same : Text → Text
same t = t

guest_authorized : is_authorized same (from_env same environ) guest ≡ true
unfolding is_authorized from_env lookup text_eq stripped split_at elem strip strip_by trim_start
    trim_end is_space Authorizer.has_role
guest_authorized = refl

is_authorized-from_env_example : (is_authorized same (from_env same environ) guest ≡ true) ↔ (
    InTrimmed guest.slack_user_id (listed_ids same environ)
    ⊎ HasRole same (map same (codes "admin" ∷ codes "owner" ∷ [])) guest.slack_roles)
is_authorized-from_env_example = is_authorized-from_env same environ guest
