-- ===== src/Preferences/Save.antt =====
-- What `set_preference` does to the saved orders, and what it leaves.
use coffee_buddy.Prelude.{
  ℕ, ◌+◌, ◌≤◌, ==_refl, ◌≡◌, refl, ◌∙◌, false, true, none, some, [], ◌∷◌, ◌++◌, arith, inl, inr,
  Option-cases,
}
use coffee_buddy.Prelude.Rows.{find, update, find-sat, find-append, find-append_false}
use coffee_buddy.Prelude.Keyed.{find-update_row, find-update_row_self}
use coffee_buddy.Effects.{ok}
use coffee_buddy.Text.{Text}
use coffee_buddy.Uuid.{uuid, as_uuid}
use coffee_buddy.Schema.{Session, UserPreference, NoCollisions}
use coffee_buddy.Schema.Tables.{IsTable, IsTable-update, IsTable-insert}
use coffee_buddy.Schema.Valid.{IsValid, same_preference, same_preference_comm}
use coffee_buddy.Preferences.{
  preference_of, preference_row, set_preference, save_preference, write_preference,
}

module _ (user channel : ℕ) (order_text : Text) where
  -- What saving the order of `user` in `channel` does to the session.
  pub record Saved (s t : Session) (p : UserPreference) : Type 0 where
    pub user_id : p.user_id ≡ user
    pub channel_id : p.channel_id ≡ channel
    pub text : p.last_order_text ≡ order_text
    pub used : p.last_used_at ≡ some (s.outside.clock s.clock_reads)
    pub found : find (preference_of user channel) t.preferences ≡ some p
    pub others :
        (u c : ℕ)
        → preference_of u c p ≡ false
        → find (preference_of u c) t.preferences ≡ find (preference_of u c) s.preferences
    pub valid :
        IsTable (λ (q : UserPreference). q.id) same_preference s.outside t.uuids_drawn t.preferences
    pub drawn : s.uuids_drawn ≤ t.uuids_drawn
    pub rest : t ≡ record s {
      clock_reads = t.clock_reads;
      uuids_drawn = t.uuids_drawn;
      preferences = t.preferences;
    }

  module _ {E : Type 0} (value_error : E) (s : Session) (valid : IsValid s) where
    abbrev time : ℕ
    time = s.outside.clock s.clock_reads

    abbrev inserted : UserPreference
    inserted = record {
      id = s.outside.uuid4 s.uuids_drawn;
      user_id = user;
      channel_id = channel;
      last_order_text = order_text;
      last_used_at = some time;
      created_at = time;
      updated_at = time;
    }

    abbrev after_insert : Session
    after_insert = record s {
      clock_reads = s.clock_reads + 1;
      uuids_drawn = s.uuids_drawn + 1;
      preferences = s.preferences ++ inserted ∷ [];
    }

    set_preference-insert :
        find (preference_of user channel) s.preferences ≡ none
        → set_preference value_error (uuid user) (uuid channel) order_text s
          ≡ (ok inserted, after_insert)
    unfolding set_preference as_uuid
    set_preference-insert absent = rw (absent, save_preference)

    insert-Saved :
        NoCollisions s.outside
        → find (preference_of user channel) s.preferences ≡ none
        → Saved s after_insert inserted
    insert-Saved differ absent = record {
      user_id = refl;
      channel_id = refl;
      text = refl;
      used = refl;
      found =
          find-append (preference_of user channel) s.preferences inserted absent
          ∙ (rw (==_refl user, ==_refl channel));
      others = λ u c out. find-append_false (preference_of u c) s.preferences inserted out;
      valid =
          IsTable-insert _ same_preference s.outside inserted differ same_preference_comm refl
            absent valid.preferences;
      drawn = omega arith;
      rest = refl;
    }

    module _ (p : UserPreference)
        (there : find (preference_of user channel) s.preferences ≡ some p) where
      abbrev rewrite : UserPreference → UserPreference
      rewrite = write_preference order_text time

      abbrev after_update : Session
      after_update = record s {
        clock_reads = s.clock_reads + 1;
        preferences = update (preference_row p) rewrite s.preferences;
      }

      set_preference-update :
          set_preference value_error (uuid user) (uuid channel) order_text s
          ≡ (ok (rewrite p), after_update)
      unfolding set_preference as_uuid
      set_preference-update = rw (there, save_preference)

      owner : preference_of user channel p ≡ true
      owner = find-sat (preference_of user channel) s.preferences there

      update-Saved : Saved s after_update (rewrite p)
      update-Saved = record {
        user_id = ground (arith, owner);
        channel_id = ground (arith, owner);
        text = refl;
        used = refl;
        found =
            find-update_row_self (λ q. q.id) (preference_of user channel) _ s.preferences p there
              (λ q. refl);
        others = λ u c out.
            find-update_row (λ q. q.id) (preference_of user channel) (preference_of u c) _
              s.preferences p valid.preferences.distinct_ids there out (λ q. refl);
        valid =
            IsTable-update _ same_preference s.outside (preference_row p) _ (λ q. refl)
              (λ q r. refl) (λ q r. refl) valid.preferences;
        drawn = omega arith;
        rest = refl;
      }

    -- The call returns, whether or not there was a saved order.
    pub set_preference_lem :
        NoCollisions s.outside
        → (p : UserPreference) × (t : Session) × (set_preference value_error
              (uuid user)
              (uuid channel)
              order_text
              s
            ≡ (ok p, t))
          × Saved s t p
    set_preference_lem differ =
        elim (Option-cases (find (preference_of user channel) s.preferences)) [
          | inl absent ↦
              (inserted, after_insert, set_preference-insert absent, insert-Saved differ absent)
          | inr (p, there) ↦
              (_, after_update p there, set_preference-update p there, update-Saved p there)
        ]
