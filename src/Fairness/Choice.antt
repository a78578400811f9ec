-- ===== src/Fairness/Choice.antt =====
-- The entries of the participants, and one run counted for one of them.
use mathlib.Core.Path.{subst, subst₂}
use mathlib.Core.Bool.{true≢false}
use native.Mathlib.Nat.{add-zero}
use coffee_buddy.Prelude.{
  ℕ, ◌+◌, ◌≡◌, ◌≢◌, refl, sym, ap, ◌∙◌, true, false, ◌&&◌, some, List, inl, inr, arith, All,
  All-map, Bool-cases, Option-cases, is_some, ◌==◌, count_of,
}
use coffee_buddy.Prelude.Rows.{find, update}
use coffee_buddy.Prelude.Keyed.{find-update_row, find-update_row_self}
use coffee_buddy.Text.{text_eq}
use coffee_buddy.Uuid.{to_text}
use coffee_buddy.Uuid.RoundTrip.{is_empty-to_text}
use coffee_buddy.Schema.{Session, RunnerStat}
use coffee_buddy.Schema.Tables.{IsTable-update}
use coffee_buddy.Schema.Valid.{IsValid, same_stat}
use coffee_buddy.Fairness.Selector.{Stats, get_stat, values, excludes}
use coffee_buddy.Fairness.Service.{among, stat_of, stat_row, serve}
use coffee_buddy.Fairness.Dict.{
  IsUuid, get_stat-AllEntries, text_eq-to_text, two_entries, to_text-injective, All-values,
}
use coffee_buddy.Fairness.Extend.{served, count_in, All-among, IsEntry}
use coffee_buddy.Fairness.Load.{Loaded}

-- The session in which one run of the chosen row is counted.
abbrev pub counted : RunnerStat → Session → Session
counted chosen m = record m {
  clock_reads = m.clock_reads + 1;
  runner_stats = update (stat_row chosen) (serve (m.outside.clock m.clock_reads)) m.runner_stats;
}

module _ (channel : ℕ) (us : List ℕ) (s m : Session) (d start : Stats) (uuids : All IsUuid us)
    (loaded : Loaded channel us us s m start d) where
  -- A participant has an entry, and it is the row of that participant.
  pub entry_of :
      (u : ℕ)
      → among us u ≡ true
      → (st : RunnerStat) × (get_stat (to_text u) d ≡ some st)
        × (st.user_id ≡ u)
        × (find (stat_of channel u) m.runner_stats ≡ some st)
  entry_of u member = elim (Option-cases (get_stat (to_text u) d)) [
    | inl missing ↦ absurd (
        true≢false (
          sym (All-among (λ v. is_some (get_stat (to_text v) d) ≡ true) us u loaded.present member)
          ∙ (rw missing)))
    | inr (st, there) ↦
        let i = get_stat-AllEntries (IsEntry channel us m) (to_text u) d st loaded.entries there in
        let same : st.user_id ≡ u = sym (
          to_text-injective u st.user_id (All-among IsUuid us u uuids member)
            (All-among IsUuid us st.user_id uuids i.member) i.key) in
        (st, there, same, subst (λ v. find (stat_of channel v) m.runner_stats ≡ some st) same i.row)
  ]

  -- An entry counts what its user has run.
  pub entry-served :
      (u : ℕ) (st : RunnerStat)
      → find (stat_of channel u) m.runner_stats ≡ some st
      → st.runs_served_count ≡ served s channel u
  entry-served u st found = ap count_in (sym found) ∙ loaded.extends.counts channel u

  pub values-IsEntry : All (λ st. IsEntry channel us m (to_text st.user_id) st) (values d)
  values-IsEntry = All-values _ d (
      All-map
        (λ e i. record { key = refl; member = i.member; channel_id = i.channel_id; row = i.row }) d
        loaded.entries)

  module _ (chosen : RunnerStat) (entry : IsEntry channel us m (to_text chosen.user_id) chosen)
      (valid : IsValid m) where
    abbrev after : Session
    after = counted chosen m

    counts_chosen : served after channel chosen.user_id ≡ served m channel chosen.user_id + 1
    counts_chosen = rw (
      find-update_row_self (λ r. r.id) (stat_of channel chosen.user_id)
          (serve (m.outside.clock m.clock_reads)) m.runner_stats chosen entry.row (λ a. refl),
      entry.row,
    )

    pub after-counts :
        (c u : ℕ) → served after c u ≡ served m c u + count_of (chosen.user_id == u && channel == c)
    after-counts c u = elim (Bool-cases (chosen.user_id == u && channel == c)) [
      | inl same ↦
          let same_user : chosen.user_id ≡ u = ground arith in
          let same_channel : channel ≡ c = ground arith in
          rw same (
            subst₂ (λ x y. served after x y ≡ served m x y + 1) same_channel same_user
              counts_chosen)
      | inr differs ↦
          let channel_of = entry.channel_id in
          rw (differs, add-zero)
            (ap count_in (
              find-update_row (λ r. r.id) (stat_of channel chosen.user_id) (stat_of c u)
                (serve (m.outside.clock m.clock_reads)) m.runner_stats chosen
                valid.runner_stats.distinct_ids entry.row (rw channel_of differs) (λ a. refl)))
    ]

    pub after-IsValid : IsValid after
    after-IsValid = record {
      orders = valid.orders;
      preferences = valid.preferences;
      runner_stats =
          IsTable-update _ same_stat m.outside (stat_row chosen)
            (serve (m.outside.clock m.clock_reads)) (λ a. refl) (λ a b. refl) (λ a b. refl)
            valid.runner_stats;
    }

  -- The last runner is left out if somebody else takes part.
  pub excludes_last :
      (l u : ℕ)
      → among us l ≡ true
      → among us u ≡ true
      → u ≢ l
      → excludes false (some (to_text l)) d ≡ true
  unfolding excludes
  excludes_last l u member_l member_u differ =
      let (st_l, there_l, _, _) = entry_of l member_l in
      let (st_u, there_u, _, _) = entry_of u member_u in
      let apart : text_eq (to_text l) (to_text u) ≡ false =
        text_eq-to_text l u (All-among IsUuid us l uuids member_l)
          (All-among IsUuid us u uuids member_u)
        ∙ ground arith in
      let two = two_entries (to_text l) (to_text u) d (rw there_l) (rw there_u) apart in
      rw (is_empty-to_text l, there_l) (ground arith)
