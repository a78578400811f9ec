-- ===== src/Admin/Service.antt =====
-- AdminService of api/admin/service.py, with the audit logger of core/audit/logger.py.
use coffee_buddy.Prelude.{
  ℕ, Bool, true, false, not, Option, none, some, List, [], ◌∷◌, ◌++◌, map, ◌==◌, if◌then◌else◌,
}
use coffee_buddy.Prelude.Rows.{select, discard, count, update}
use coffee_buddy.Effects.{Exec, ok, raised, pure, raise, lift, gets, modify, ◌>>=◌, ◌>>◌}
use coffee_buddy.Text.{Text, codes, text_eq, is_empty}
use coffee_buddy.Uuid.{to_text}
use coffee_buddy.Schema.{
  Session, Channel, Run, Order, ChannelAdminAction, ChannelAdminActionType, enable, disable,
  update_config, data_reset, number, flag, text, Detail, one, fields, now,
}
use coffee_buddy.Fairness.Service.{among}
use coffee_buddy.Admin.Models.{
  AdminActor, ChannelConfigPatch, AdminError, multiple_results, integrity_error, not_authorized,
  channel_not_found, ChannelConfigUpdateResult, ChannelStateChangeResult, DataResetResult,
}
use coffee_buddy.Admin.Config.{Setting, set_fields, field_of, field_name, build_config_updates}

abbrev pub Action : Type 0 → Type 0
Action = Exec Session AdminError

abbrev pub named : Text → Channel → Bool
named slack_channel_id c = text_eq c.slack_channel_id slack_channel_id

abbrev pub channel_row : Channel → Channel → Bool
channel_row c d = d.id == c.id

-- `scalar_one_or_none()`, and the exception for a channel that is not there
abbrev pub one_channel : Text → List Channel → Action Channel
one_channel slack_channel_id [] = raise (channel_not_found slack_channel_id)
one_channel slack_channel_id (c ∷ []) = pure c
one_channel slack_channel_id (c ∷ d ∷ cs) = raise multiple_results

unfoldable pub get_channel : Text → Action Channel
get_channel slack_channel_id = do
  found ← gets (λ s. select (named slack_channel_id) s.channels)
  one_channel slack_channel_id found

-- The row of `AdminAuditLogger.log_action`, which sets no `created_at`.
abbrev pub action_row :
    ℕ → Text → ChannelAdminActionType → List (Text × Detail) → ChannelAdminAction
action_row channel_id admin_user_id action_type details = record {
  channel_id = channel_id;
  admin_user_id = admin_user_id;
  action_type = action_type;
  action_details = details;
  created_at = none;
}

-- `session.add(entry)` and `session.flush()`: where the database refuses the row, the attributes that
-- have been set stay set in the session, until the caller rolls back.
abbrev pub add_action : ChannelAdminAction → Action Unit
add_action row s =
    if s.outside.takes_action row
    then (ok tt, record s { admin_actions = s.admin_actions ++ row ∷ [] })
    else (raised integrity_error, s)

abbrev pub log_action : ℕ → Text → ChannelAdminActionType → List (Text × Detail) → Action Unit
log_action channel_id admin_user_id action_type details =
    add_action (action_row channel_id admin_user_id action_type details)

-- The attributes of a channel are set.
abbrev pub set_channel : Channel → (Channel → Channel) → Action Unit
set_channel channel f =
    modify λ s. record s { channels = update (channel_row channel) f s.channels }

abbrev pub in_runs : List Run → Order → Bool
in_runs runs o = among (map (λ r. r.id) runs) o.run_id

-- `_purge_channel_data`
unfoldable pub purge_channel_data : ℕ → Session → Session
purge_channel_data channel_id s = record s {
  orders = discard (in_runs (select (λ r. r.channel_id == channel_id) s.runs)) s.orders;
  runs = discard (λ r. r.channel_id == channel_id) s.runs;
  preferences = discard (λ p. p.channel_id == channel_id) s.preferences;
  runner_stats = discard (λ st. st.channel_id == channel_id) s.runner_stats;
}

-- The row counts of the four statements.
abbrev pub purge_counts : Channel → Session → DataResetResult
purge_counts channel s = record {
  channel_id = to_text channel.id;
  orders_deleted = count (in_runs (select (λ r. r.channel_id == channel.id) s.runs)) s.orders;
  runs_deleted = count (λ r. r.channel_id == channel.id) s.runs;
  preferences_deleted = count (λ p. p.channel_id == channel.id) s.preferences;
  runner_stats_deleted = count (λ st. st.channel_id == channel.id) s.runner_stats;
}

abbrev pub count_details : DataResetResult → List (Text × Detail)
count_details r =
    (codes "orders_deleted", one (number r.orders_deleted))
    ∷ (codes "runs_deleted", one (number r.runs_deleted))
    ∷ (codes "preferences_deleted", one (number r.preferences_deleted))
    ∷ (codes "runner_stats_deleted", one (number r.runner_stats_deleted))
    ∷ []

-- `reason or "unspecified"`
abbrev pub reason_text : Option Text → Text
reason_text none = codes "unspecified"
reason_text (some t) = if is_empty t then codes "unspecified" else t

-- `a != b`
abbrev pub differs : Bool → Bool → Bool
differs true b = not b
differs false b = b

-- `is_authorized` is the authorizer that the service is given.
module _ (is_authorized : AdminActor → Bool) where
  abbrev pub assert_authorized : AdminActor → Action Unit
  assert_authorized actor =
      if is_authorized actor then pure tt else raise (not_authorized actor.slack_user_id)

  -- The body of `update_channel_config` from the settings on.
  abbrev pub apply_updates : Channel → AdminActor → List Setting → Action ChannelConfigUpdateResult
  apply_updates channel actor [] =
      pure (record { channel_id = to_text channel.id; applied_fields = [] })
  apply_updates channel actor (x ∷ xs) = do
    timestamp ← now
    set_channel channel (λ c. record (set_fields (x ∷ xs) c) { updated_at = timestamp })
    log_action channel.id actor.user_id update_config
        ((codes "updated_fields", fields (map field_of (x ∷ xs))) ∷ [])
    pure (record { channel_id = to_text channel.id; applied_fields = map field_name (x ∷ xs) })

  unfoldable pub update_channel_config :
      Text → AdminActor → ChannelConfigPatch → Action ChannelConfigUpdateResult
  update_channel_config slack_channel_id actor patch = do
    channel ← get_channel slack_channel_id
    assert_authorized actor
    updates ← lift (build_config_updates channel patch)
    apply_updates channel actor updates

  unfoldable pub set_channel_enabled :
      Text → AdminActor → Bool → Option Text → Action ChannelStateChangeResult
  set_channel_enabled slack_channel_id actor enabled reason = do
    channel ← get_channel slack_channel_id
    assert_authorized actor
    timestamp ← now
    set_channel channel (λ c. record c { enabled = enabled; updated_at = timestamp })
    let action_type = if enabled then enable else disable
    log_action channel.id actor.user_id action_type (
        (codes "reason", one (text (reason_text reason)))
        ∷ (codes "previous_state", one (flag channel.enabled))
        ∷ (codes "changed", one (flag (differs channel.enabled enabled)))
        ∷ [])
    pure (record { channel_id = to_text channel.id; enabled = enabled; action_type = action_type })

  unfoldable pub reset_channel_data : Text → AdminActor → Action DataResetResult
  reset_channel_data slack_channel_id actor = do
    channel ← get_channel slack_channel_id
    assert_authorized actor
    counts ← gets (purge_counts channel)
    modify (purge_channel_data channel.id)
    timestamp ← now
    set_channel channel (λ c. record c { last_reset_at = some timestamp; updated_at = timestamp })
    log_action channel.id actor.user_id data_reset (count_details counts)
    pure counts
