-- ===== src/Admin/Ranges.antt =====
-- `update_channel_config` keeps every setting in its range.
use coffee_buddy.Prelude.{
  ℕ, ◌≤◌, ◌≡◌, refl, Bool, true, false, ◌&&◌, Option, none, some, List, [], ◌∷◌, inl, inr, arith,
  All, All-append, Bool-cases, leb, if◌then◌else◌, not, is_some,
}
use coffee_buddy.Prelude.Rows.{update}
use coffee_buddy.Effects.{Result, ok, raised}
use coffee_buddy.Schema.{Channel}
use coffee_buddy.Number.{ℤ, pos, negsuc}
use coffee_buddy.Admin.Models.{AdminError, ChannelConfigPatch}
use coffee_buddy.Admin.Config.{
  Setting, reminder_offset_minutes, fairness_window_runs, data_retention_days, reminders_enabled,
  last_call_enabled, last_call_lead_minutes, set_field, set_fields, ranged, switched, then_also,
  lead_time, build_config_updates, is_on,
}

abbrev pub Within : (minimum maximum n : ℕ) → Type 0
Within minimum maximum n = (minimum ≤ n) × (n ≤ maximum)

abbrev pub LeadWithin : Option ℕ → Type 0
LeadWithin none = Unit
LeadWithin (some n) = Within 1 30 n

-- The CHECK constraints of the table `channels`, and the range of the lead time.
pub record IsConfigured (c : Channel) : Type 0 where
  pub reminder_offset : Within 1 60 c.reminder_offset_minutes
  pub fairness_window : Within 1 50 c.fairness_window_runs
  pub retention : Within 30 365 c.data_retention_days
  pub lead : LeadWithin c.last_call_lead_minutes

abbrev pub Allowed : Setting → Type 0
Allowed (reminder_offset_minutes n) = Within 1 60 n
Allowed (fairness_window_runs n) = Within 1 50 n
Allowed (data_retention_days n) = Within 30 365 n
Allowed (reminders_enabled b) = Unit
Allowed (last_call_enabled b) = Unit
Allowed (last_call_lead_minutes n) = Within 1 30 n

abbrev pub AllowedIf : Result AdminError (List Setting) → Type 0
AllowedIf (ok xs) = All Allowed xs
AllowedIf (raised e) = Unit

ranged-AllowedIf :
    (setting : ℕ → Setting) (lo hi : ℕ) (z : Option ℤ)
    → ((n : ℕ) → Within lo hi n → Allowed (setting n))
    → AllowedIf (ranged setting lo hi z)
ranged-AllowedIf setting lo hi none h = tt
ranged-AllowedIf setting lo hi (some (negsuc n)) h = tt
ranged-AllowedIf setting lo hi (some (pos n)) h =
    tested (leb lo n && leb n hi) _ (λ e. h n (ground arith, ground arith))
  where
    tested :
        (b : Bool) (e : AdminError)
        → (b ≡ true → Allowed (setting n))
        → AllowedIf (elim (if b then ok n else raised e) [
          | raised e' ↦ raised e'
          | ok m ↦ ok (setting m ∷ [])
        ])
    tested true e k = (k refl, tt)
    tested false e k = tt

then_also-AllowedIf :
    (a b : Result AdminError (List Setting)) → AllowedIf a → AllowedIf b → AllowedIf (then_also a b)
then_also-AllowedIf (raised e) b h k = tt
then_also-AllowedIf (ok xs) (raised e) h k = tt
then_also-AllowedIf (ok xs) (ok ys) h k = All-append Allowed xs ys h k

switched-AllowedIf :
    (setting : Bool → Setting) (b : Option Bool)
    → ((c : Bool) → Allowed (setting c))
    → AllowedIf (switched setting b)
switched-AllowedIf setting none h = tt
switched-AllowedIf setting (some b) h = (h b, tt)

lead_time-AllowedIf : (c : Channel) (patch : ChannelConfigPatch) → AllowedIf (lead_time c patch)
lead_time-AllowedIf c patch =
    elim (Bool-cases (
      is_on patch.last_call_enabled
      && not (is_some patch.last_call_lead_minutes)
      && not (is_some c.last_call_lead_minutes))) [ inl e ↦ rw e tt | inr e ↦ rw e tt ]

pub build_config_updates-AllowedIf :
    (c : Channel) (patch : ChannelConfigPatch) → AllowedIf (build_config_updates c patch)
unfolding build_config_updates
build_config_updates-AllowedIf c patch =
    then_also-AllowedIf _ _
      (ranged-AllowedIf reminder_offset_minutes 1 60 patch.reminder_offset_minutes (λ n h. h))
      (then_also-AllowedIf _ _
        (ranged-AllowedIf fairness_window_runs 1 50 patch.fairness_window_runs (λ n h. h))
        (then_also-AllowedIf _ _
          (ranged-AllowedIf data_retention_days 30 365 patch.data_retention_days (λ n h. h))
          (then_also-AllowedIf _ _
            (switched-AllowedIf reminders_enabled patch.reminders_enabled (λ b. tt))
            (then_also-AllowedIf _ _
              (switched-AllowedIf last_call_enabled patch.last_call_enabled (λ b. tt))
              (then_also-AllowedIf _ _
                (ranged-AllowedIf last_call_lead_minutes 1 30 patch.last_call_lead_minutes
                  (λ n h. h))
                (lead_time-AllowedIf c patch))))))

set_field-IsConfigured :
    (x : Setting) (c : Channel) → Allowed x → IsConfigured c → IsConfigured (set_field x c)
set_field-IsConfigured (reminder_offset_minutes n) c h i = record {
  reminder_offset = h;
  fairness_window = i.fairness_window;
  retention = i.retention;
  lead = i.lead;
}
set_field-IsConfigured (fairness_window_runs n) c h i = record {
  reminder_offset = i.reminder_offset;
  fairness_window = h;
  retention = i.retention;
  lead = i.lead;
}
set_field-IsConfigured (data_retention_days n) c h i = record {
  reminder_offset = i.reminder_offset;
  fairness_window = i.fairness_window;
  retention = h;
  lead = i.lead;
}
set_field-IsConfigured (reminders_enabled b) c h i = record {
  reminder_offset = i.reminder_offset;
  fairness_window = i.fairness_window;
  retention = i.retention;
  lead = i.lead;
}
set_field-IsConfigured (last_call_enabled b) c h i = record {
  reminder_offset = i.reminder_offset;
  fairness_window = i.fairness_window;
  retention = i.retention;
  lead = i.lead;
}
set_field-IsConfigured (last_call_lead_minutes n) c h i = record {
  reminder_offset = i.reminder_offset;
  fairness_window = i.fairness_window;
  retention = i.retention;
  lead = h;
}

pub set_fields-IsConfigured :
    (xs : List Setting) (c : Channel)
    → All Allowed xs
    → IsConfigured c
    → IsConfigured (set_fields xs c)
unfolding set_fields
set_fields-IsConfigured [] c h i = i
set_fields-IsConfigured (x ∷ xs) c h i =
    set_fields-IsConfigured xs (set_field x c) h.1 (set_field-IsConfigured x c h.0 i)

module _ (P : Channel → Type 0) where
  pub All-update :
      (p : Channel → Bool) (f : Channel → Channel) (cs : List Channel)
      → ((c : Channel) → P c → P (f c))
      → All P cs
      → All P (update p f cs)
  unfolding update
  All-update p f [] k h = tt
  All-update p f (c ∷ cs) k h = elim (Bool-cases (p c)) [
    | inl e ↦ rw e (k c h.0, All-update p f cs k h.1)
    | inr e ↦ rw e (h.0, All-update p f cs k h.1)
  ]
