-- ===== src/Admin/Reset.antt =====
-- `AdminService.reset_channel_data` deletes what belongs to one channel.
use coffee_buddy.Prelude.{ℕ, ◌+◌, ◌≡◌, Bool, false, not, false, some, none, length, ◌==◌}
use coffee_buddy.Prelude.Rows.{select, update, count}
use coffee_buddy.Text.{Text}
use coffee_buddy.Schema.{Session, Channel, Order, ChannelAdminAction, data_reset}
use coffee_buddy.Admin.Models.{AdminActor, DataResetResult}
use coffee_buddy.Admin.Service.{in_runs, purge_channel_data, count_details, channel_row}

module _ (is_authorized : AdminActor → Bool) (slack_channel_id : Text) (actor : AdminActor)
    (s : Session) (channel : Channel) where
  -- The order belongs to a run of the channel.
  abbrev pub of_channel : Order → Bool
  of_channel = in_runs (select (λ r. r.channel_id == channel.id) s.runs)

  -- What a reset leaves, where the result counts the rows.
  pub record WasReset (t : Session) (result : DataResetResult) : Type 0 where
    pub orders_gone : count of_channel t.orders ≡ 0
    pub runs_gone : count (λ r. r.channel_id == channel.id) t.runs ≡ 0
    pub preferences_gone : count (λ p. p.channel_id == channel.id) t.preferences ≡ 0
    pub stats_gone : count (λ st. st.channel_id == channel.id) t.runner_stats ≡ 0
    pub orders_left :
        select (λ o. not (of_channel o)) t.orders ≡ select (λ o. not (of_channel o)) s.orders
    pub runs_left :
        (c : ℕ)
        → (channel.id == c) ≡ false
        → select (λ r. r.channel_id == c) t.runs ≡ select (λ r. r.channel_id == c) s.runs
    pub preferences_left :
        (c : ℕ)
        → (channel.id == c) ≡ false
        → select (λ p. p.channel_id == c) t.preferences
          ≡ select (λ p. p.channel_id == c) s.preferences
    pub stats_left :
        (c : ℕ)
        → (channel.id == c) ≡ false
        → select (λ st. st.channel_id == c) t.runner_stats
          ≡ select (λ st. st.channel_id == c) s.runner_stats
    pub orders_counted : length t.orders + result.orders_deleted ≡ length s.orders
    pub runs_counted : length t.runs + result.runs_deleted ≡ length s.runs
    pub preferences_counted :
        length t.preferences + result.preferences_deleted ≡ length s.preferences
    pub stats_counted : length t.runner_stats + result.runner_stats_deleted ≡ length s.runner_stats
    pub users : t.users ≡ s.users

  -- The row that a reset logs.
  abbrev pub entry : DataResetResult → ChannelAdminAction
  entry result = record {
    channel_id = channel.id;
    admin_user_id = actor.user_id;
    action_type = data_reset;
    action_details = count_details result;
    created_at = none;
  }

  -- The session once the attributes of the channel are set.
  abbrev purged : Session
  purged =
      let time = s.outside.clock s.clock_reads in
      record (purge_channel_data channel.id s) {
        clock_reads = s.clock_reads + 1;
        channels =
            update (channel_row channel)
              (λ c. record c { last_reset_at = some time; updated_at = time }) s.channels;
      }
