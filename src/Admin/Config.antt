-- ===== src/Admin/Config.antt =====
-- `_build_config_updates` of api/admin/service.py: the settings that a patch changes.
use coffee_buddy.Prelude.{
  ℕ, Bool, false, ◌&&◌, not, Option, none, some, List, [], ◌∷◌, ◌++◌, leb, is_some, if◌then◌else◌,
}
use coffee_buddy.Effects.{Result, ok, raised}
use coffee_buddy.Text.{Text, codes}
use coffee_buddy.Schema.{Channel, Value, number, flag}
use coffee_buddy.Number.{ℤ, pos, negsuc}
use coffee_buddy.Admin.Models.{
  ChannelConfigPatch, AdminError, config_validation, out_of_range, lead_time_missing,
}

-- An entry of `updates`.
pub data Setting : Type 0 where
  reminder_offset_minutes fairness_window_runs data_retention_days : ℕ → Setting
  reminders_enabled last_call_enabled : Bool → Setting
  last_call_lead_minutes : ℕ → Setting

-- `setattr(channel, field, value)`
abbrev pub set_field : Setting → Channel → Channel
set_field (reminder_offset_minutes n) c = record c { reminder_offset_minutes = n }
set_field (fairness_window_runs n) c = record c { fairness_window_runs = n }
set_field (data_retention_days n) c = record c { data_retention_days = n }
set_field (reminders_enabled b) c = record c { reminders_enabled = b }
set_field (last_call_enabled b) c = record c { last_call_enabled = b }
set_field (last_call_lead_minutes n) c = record c { last_call_lead_minutes = some n }

unfoldable pub set_fields : List Setting → Channel → Channel
set_fields [] c = c
set_fields (x ∷ xs) c = set_fields xs (set_field x c)

-- The key and the value of an entry.
abbrev pub field_of : Setting → Text × Value
field_of (reminder_offset_minutes n) = (codes "reminder_offset_minutes", number n)
field_of (fairness_window_runs n) = (codes "fairness_window_runs", number n)
field_of (data_retention_days n) = (codes "data_retention_days", number n)
field_of (reminders_enabled b) = (codes "reminders_enabled", flag b)
field_of (last_call_enabled b) = (codes "last_call_enabled", flag b)
field_of (last_call_lead_minutes n) = (codes "last_call_lead_minutes", number n)

abbrev pub field_name : Setting → Text
field_name x = (field_of x).0

-- `_ensure_range`, with the value that it lets through.
abbrev pub ensure_range : Text → (minimum maximum : ℕ) → ℤ → Result AdminError ℕ
ensure_range field minimum maximum (negsuc n) =
    raised (config_validation field (out_of_range minimum maximum))
ensure_range field minimum maximum (pos n) =
    if leb minimum n && leb n maximum
    then ok n
    else raised (config_validation field (out_of_range minimum maximum))

-- A number of the patch, if it is there.
abbrev pub ranged :
    (ℕ → Setting) → (minimum maximum : ℕ) → Option ℤ → Result AdminError (List Setting)
ranged setting minimum maximum none = ok []
ranged setting minimum maximum (some z) =
    elim (ensure_range (field_name (setting minimum)) minimum maximum z) [
      | raised e ↦ raised e
      | ok n ↦ ok (setting n ∷ [])
    ]

abbrev pub switched : (Bool → Setting) → Option Bool → Result AdminError (List Setting)
switched setting none = ok []
switched setting (some b) = ok (setting b ∷ [])

-- One `if` of the method after another: the first exception ends it.
abbrev pub then_also :
    Result AdminError (List Setting)
    → Result AdminError (List Setting)
    → Result AdminError (List Setting)
then_also (raised e) r = raised e
then_also (ok xs) (raised e) = raised e
then_also (ok xs) (ok ys) = ok (xs ++ ys)

abbrev pub is_on : Option Bool → Bool
is_on none = false
is_on (some b) = b

-- The check after all settings have been collected.
abbrev pub lead_time : Channel → ChannelConfigPatch → Result AdminError (List Setting)
lead_time channel patch =
    if is_on patch.last_call_enabled
      && not (is_some patch.last_call_lead_minutes)
      && not (is_some channel.last_call_lead_minutes)
    then raised (config_validation (codes "last_call_lead_minutes") lead_time_missing)
    else ok []

unfoldable pub build_config_updates :
    Channel → ChannelConfigPatch → Result AdminError (List Setting)
build_config_updates channel patch =
    then_also (ranged reminder_offset_minutes 1 60 patch.reminder_offset_minutes) (
      then_also (ranged fairness_window_runs 1 50 patch.fairness_window_runs) (
        then_also (ranged data_retention_days 30 365 patch.data_retention_days) (
          then_also (switched reminders_enabled patch.reminders_enabled) (
            then_also (switched last_call_enabled patch.last_call_enabled) (
              then_also (ranged last_call_lead_minutes 1 30 patch.last_call_lead_minutes)
                (lead_time channel patch))))))
