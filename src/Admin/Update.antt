-- ===== src/Admin/Update.antt =====
-- `AdminService.update_channel_config`: what a failure leaves, and what the settings are afterwards.
use mathlib.Core.Path.{subst}
use coffee_buddy.Prelude.{
  ◌+◌, none, map, ◌≡◌, refl, Bool, true, false, List, [], ◌∷◌, ◌⊎◌, inl, inr, All, Bool-cases,
}
use coffee_buddy.Prelude.Rows.{select, update}
use coffee_buddy.Effects.{Result, ok, raised}
use coffee_buddy.Text.{Text, codes}
use coffee_buddy.Schema.{Session, Channel, ChannelAdminAction, update_config, fields}
use coffee_buddy.Admin.Models.{
  AdminActor, AdminError, ChannelConfigPatch, channel_not_found, multiple_results, integrity_error,
  not_authorized,
}
use coffee_buddy.Admin.Config.{Setting, set_fields, field_of, build_config_updates}
use coffee_buddy.Admin.Service.{
  named, get_channel, update_channel_config, channel_row, apply_updates,
}
use coffee_buddy.Admin.Ranges.{
  IsConfigured, Allowed, AllowedIf, build_config_updates-AllowedIf, set_fields-IsConfigured,
  All-update,
}

pub get_channel_cases :
    (name : Text) (s : Session)
    → ((e : AdminError) × (get_channel name s ≡ (raised e, s)))
      ⊎ ((c : Channel) × (get_channel name s ≡ (ok c, s))
          × (select (named name) s.channels ≡ c ∷ []))
unfolding get_channel
get_channel_cases name s = by_rows (select (named name) s.channels) refl
  where
    by_rows :
        (cs : List Channel)
        → select (named name) s.channels ≡ cs
        → ((e : AdminError) × (get_channel name s ≡ (raised e, s)))
          ⊎ ((c : Channel) × (get_channel name s ≡ (ok c, s))
              × (select (named name) s.channels ≡ c ∷ []))
    by_rows [] e = inl (channel_not_found name, rw e)
    by_rows (c ∷ []) e = inr (c, rw e, e)
    by_rows (c ∷ d ∷ cs) e = inl (multiple_results, rw e)

module _ (is_authorized : AdminActor → Bool) (name : Text) (actor : AdminActor)
    (patch : ChannelConfigPatch) (s : Session) where
  update_channel_config_cases :
      ((e : AdminError) × (update_channel_config is_authorized name actor patch s ≡ (raised e, s)))
      ⊎ ((c : Channel) × (xs : List Setting) × (is_authorized actor ≡ true)
          × (select (named name) s.channels ≡ c ∷ [])
          × (build_config_updates c patch ≡ ok xs)
          × (update_channel_config is_authorized name actor patch s
              ≡ apply_updates is_authorized c actor xs s))
  unfolding update_channel_config
  update_channel_config_cases = elim (get_channel_cases name s) [
    | inl (e, h) ↦ inl (e, rw h)
    | inr (c, h, found) ↦ elim (Bool-cases (is_authorized actor)) [
      | inr barred ↦ inl (not_authorized actor.slack_user_id, rw (h, barred))
      | inl may ↦ built c h found may (build_config_updates c patch) refl
    ]
  ]
    where
      built :
          (c : Channel)
          → get_channel name s ≡ (ok c, s)
          → select (named name) s.channels ≡ c ∷ []
          → is_authorized actor ≡ true
          → (r : Result AdminError (List Setting)) → build_config_updates c patch ≡ r
          → ((e : AdminError) × (update_channel_config is_authorized name actor patch s
                ≡ (raised e, s)))
            ⊎ ((c : Channel) × (xs : List Setting) × (is_authorized actor ≡ true)
                × (select (named name) s.channels ≡ c ∷ [])
                × (build_config_updates c patch ≡ ok xs)
                × (update_channel_config is_authorized name actor patch s
                    ≡ apply_updates is_authorized c actor xs s))
      built c h found may (raised e) k = inl (e, rw (h, may, k))
      built c h found may (ok xs) k = inr (c, xs, may, found, k, rw (h, may, k))

  -- The row that an update logs.
  abbrev pub entry : Channel → List Setting → ChannelAdminAction
  entry c xs = record {
    channel_id = c.id;
    admin_user_id = actor.user_id;
    action_type = update_config;
    action_details = (codes "updated_fields", fields (map field_of xs)) ∷ [];
    created_at = none;
  }

  -- The session once the settings of the channel are set.
  abbrev pub configured : Channel → List Setting → Session
  configured c xs = record s {
    clock_reads = s.clock_reads + 1;
    channels =
        update (channel_row c)
          (λ d. record (set_fields xs d) { updated_at = s.outside.clock s.clock_reads }) s.channels;
  }

  applied-IsConfigured :
      (c : Channel) (xs : List Setting)
      → All Allowed xs
      → All IsConfigured s.channels
      → All IsConfigured (apply_updates is_authorized c actor xs s).1.channels
  applied-IsConfigured c [] h k = k
  applied-IsConfigured c (x ∷ xs) h k =
      elim (Bool-cases (s.outside.takes_action (entry c (x ∷ xs)))) [
        | inl takes ↦ rw takes set
        | inr refuses ↦ rw refuses set
      ]
    where
      set : All IsConfigured (configured c (x ∷ xs)).channels
      set =
          All-update IsConfigured (channel_row c) _ s.channels
            (λ d i.
              let j = set_fields-IsConfigured (x ∷ xs) d h i in
              record {
                reminder_offset = j.reminder_offset;
                fairness_window = j.fairness_window;
                retention = j.retention;
                lead = j.lead;
              })
            k

  -- Whatever patch is asked for, and whether the call returns or raises: if the settings of all
  -- channels were in their ranges before, they are afterwards.
  pub update_channel_config-IsConfigured :
      All IsConfigured s.channels
      → All IsConfigured (update_channel_config is_authorized name actor patch s).1.channels
  update_channel_config-IsConfigured h = elim update_channel_config_cases [
    | inl (e, k) ↦ rw k h
    | inr (c, xs, may, found, built, k) ↦ rw k (
        applied-IsConfigured c xs (subst AllowedIf built (build_config_updates-AllowedIf c patch))
          h)
  ]

  -- The database refuses the audit row, and the settings of the patch have been set.
  abbrev pub IsRefused : AdminError → Session → Type 0
  IsRefused e t =
      (c : Channel) × (xs : List Setting) × (select (named name) s.channels ≡ c ∷ [])
      × (build_config_updates c patch ≡ ok xs)
      × (s.outside.takes_action (entry c xs) ≡ false)
      × (e ≡ integrity_error)
      × (t ≡ configured c xs)

  -- A call by somebody who may not raises and changes nothing.
  pub update_channel_config-barred :
      is_authorized actor ≡ false
      → (e : AdminError) × (update_channel_config is_authorized name actor patch s ≡ (raised e, s))
  update_channel_config-barred barred = elim update_channel_config_cases [
    | inl r ↦ r
    | inr (c, xs, may, found, built, k) ↦ absurd (cc)
  ]
