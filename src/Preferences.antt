-- ===== src/Preferences.antt =====
-- services/preferences/service.py: the saved order of a user in a channel.
use coffee_buddy.Prelude.{ℕ, Bool, ◌&&◌, Option, none, some, List, [], ◌∷◌, ◌++◌, ◌==◌}
pub mod Save
use coffee_buddy.Prelude.Rows.{find, update}
use coffee_buddy.Effects.{Exec, pure, gets, modify, some_or, ◌>>=◌, ◌>>◌}
use coffee_buddy.Text.{Text}
use coffee_buddy.Uuid.{Ref, as_uuid}
use coffee_buddy.Schema.{UserPreference, Session, now, fresh_uuid}

-- The row of a user and a channel, which `uq_preferences_user_channel` makes unique.
abbrev pub preference_of : ℕ → ℕ → UserPreference → Bool
preference_of user channel p = p.user_id == user && p.channel_id == channel

-- A persistent object stands for the row with its primary key.
abbrev pub preference_row : UserPreference → UserPreference → Bool
preference_row p q = q.id == p.id

abbrev pub write_preference : Text → ℕ → UserPreference → UserPreference
write_preference order_text time p = record p {
  last_order_text = order_text;
  last_used_at = some time;
  updated_at = time;
}

-- `value_error` is what a text raises that is no UUID.
module _ {E : Type 0} (value_error : E) where
  unfoldable pub get_preference :
      (user_id channel_id : Ref) → Exec Session E (Option UserPreference)
  unfolding find
  get_preference user_id channel_id = do
    user ← some_or value_error (as_uuid user_id)
    channel ← some_or value_error (as_uuid channel_id)
    gets (λ s. find (preference_of user channel) s.preferences)

  abbrev pub save_preference :
      Ref → Ref → Text → ℕ → Option UserPreference → Exec Session E UserPreference
  save_preference user_id channel_id order_text time (some existing) = do
    let written = write_preference order_text time existing
    modify (λ s. record s {
      preferences =
          update (preference_row existing) (write_preference order_text time) s.preferences;
    })
    pure written
  save_preference user_id channel_id order_text time none = do
    id ← fresh_uuid
    user ← some_or value_error (as_uuid user_id)
    channel ← some_or value_error (as_uuid channel_id)
    let preference : UserPreference = record {
      id = id;
      user_id = user;
      channel_id = channel;
      last_order_text = order_text;
      last_used_at = some time;
      created_at = time;
      updated_at = time;
    }
    modify (λ s. record s { preferences = s.preferences ++ preference ∷ [] })
    pure preference

  unfoldable pub set_preference : (user_id channel_id : Ref) → Text → Exec Session E UserPreference
  unfolding get_preference
  set_preference user_id channel_id order_text = do
    existing ← get_preference user_id channel_id
    time ← now
    save_preference user_id channel_id order_text time existing

module _ {E : Type 0} where
  unfoldable pub mark_used : UserPreference → Exec Session E UserPreference
  mark_used preference = do
    time ← now
    modify (λ s. record s {
      preferences =
          update (preference_row preference)
            (λ p. record p { last_used_at = some time; updated_at = time }) s.preferences;
    })
    pure (record preference { last_used_at = some time; updated_at = time })
