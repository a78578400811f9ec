-- ===== src/Schema/Valid.antt =====
-- The constraints of infra/db/models.py on the tables that the services write.
use coffee_buddy.Prelude.{◌≡◌, Bool, ◌&&◌, ◌==◌, arith}
use coffee_buddy.Schema.{Session, Order, UserPreference, RunnerStat}
use coffee_buddy.Schema.Tables.{IsTable}

-- uq_orders_run_user
abbrev pub same_owner : Order → Order → Bool
same_owner a b = b.run_id == a.run_id && b.user_id == a.user_id

-- uq_preferences_user_channel
abbrev pub same_preference : UserPreference → UserPreference → Bool
same_preference a b = b.user_id == a.user_id && b.channel_id == a.channel_id

-- uq_runner_stats_user_channel
abbrev pub same_stat : RunnerStat → RunnerStat → Bool
same_stat a b = b.user_id == a.user_id && b.channel_id == a.channel_id

pub record IsValid (s : Session) : Type 0 where
  pub orders : IsTable (λ o. o.id) same_owner s.outside s.uuids_drawn s.orders
  pub preferences : IsTable (λ p. p.id) same_preference s.outside s.uuids_drawn s.preferences
  pub runner_stats : IsTable (λ r. r.id) same_stat s.outside s.uuids_drawn s.runner_stats

pub same_owner_comm : (a b : Order) → same_owner a b ≡ same_owner b a
same_owner_comm a b = ground arith

pub same_preference_comm : (a b : UserPreference) → same_preference a b ≡ same_preference b a
same_preference_comm a b = ground arith

pub same_stat_comm : (a b : RunnerStat) → same_stat a b ≡ same_stat b a
same_stat_comm a b = ground arith
