-- ===== src/Fairness/Load.antt =====
-- What `_load_stats` returns, and what it adds to the table.
use mathlib.Core.Path.{subst}
use mathlib.Core.Bool.{true≢false}
use coffee_buddy.Prelude.{
  ℕ, ◌≡◌, refl, sym, ◌∙◌, Bool, true, false, ◌&&◌, some, List, [], ◌∷◌, map, inl, inr, arith, All,
  All-map, Bool-cases, Option-cases, is_some, ◌==◌, ==_iff,
}
use coffee_buddy.Prelude.Rows.{
  find, select, All-select, All-of-select, All-find, find-append_false, find-sat,
}
use coffee_buddy.Prelude.Keyed.{find-same}
use coffee_buddy.Effects.{ok}
use coffee_buddy.Text.{Text}
use coffee_buddy.Uuid.{to_text}
use coffee_buddy.Schema.{Session, RunnerStat, NoCollisions}
use coffee_buddy.Schema.Tables.{IsTable}
use coffee_buddy.Schema.Valid.{IsValid, same_stat, same_stat_comm}
use coffee_buddy.Fairness.Selector.{Stats, get_stat, put_stat, by_user}
use coffee_buddy.Fairness.Service.{among, stat_of, create_missing, load_stats}
use coffee_buddy.Fairness.Dict.{
  IsUuid, AllEntries, put_stat-AllEntries, by_user-AllEntries, has-put_stat, has-put_stat_self,
  has-by_user_row,
}
use coffee_buddy.Fairness.Extend.{
  as_uuid-to_text, parse_all-to_text, IsEntry-Extends, IsEntry, Extends-trans, Extends-refl,
  after-Extends, after-IsEntry, Extends, Misses, created, after,
}

module _ (channel : ℕ) (users : List ℕ) where
  -- After a creation a participant who is still missing has no row.
  after-Misses :
      (s : Session) (u : ℕ) (is_uuid : IsUuid u) (member : among users u ≡ true) (d : Stats) (v : ℕ)
      → Misses channel users s d v
      → Misses channel users
          (after channel users s u is_uuid member d)
          (put_stat (to_text u) (created channel users s u is_uuid member d) d)
          v
  after-Misses s u is_uuid member d v misses h =
      elim (Bool-cases (is_some (get_stat (to_text v) d))) [
        | inl there ↦ absurd (true≢false (sym (has-put_stat (to_text v) (to_text u) _ d there) ∙ h))
        | inr not_there ↦ elim (Bool-cases (u == v)) [
          | inl same ↦ absurd (
              true≢false (
                sym (has-put_stat_self (to_text u) (created channel users s u is_uuid member d) d)
                ∙ subst
                    (λ x.
                      is_some (
                        get_stat (to_text x)
                          (put_stat (to_text u) (created channel users s u is_uuid member d) d))
                      ≡ false)
                    (sym ((==_iff u v).0 same)) h))
          | inr other ↦
              find-append_false (stat_of channel v) s.runner_stats _ (rw other refl)
              ∙ misses not_there
        ]
      ]

  -- What the loading has made of a session: the dictionary holds the row of every participant.
  pub record Loaded (us : List ℕ) (s t : Session) (d d' : Stats) : Type 0 where
    pub entries : AllEntries (IsEntry channel users t) d'
    pub present : All (λ u. is_some (get_stat (to_text u) d') ≡ true) us
    pub kept : (k : Text) → is_some (get_stat k d) ≡ true → is_some (get_stat k d') ≡ true
    pub extends : Extends channel users s t

  create_missing_lem :
      (us : List ℕ) (s : Session) (d : Stats)
      → NoCollisions s.outside
      → IsTable (λ (r : RunnerStat). r.id) same_stat s.outside s.uuids_drawn s.runner_stats
      → All IsUuid us
      → All (λ u. among users u ≡ true) us
      → AllEntries (IsEntry channel users s) d
      → All (Misses channel users s d) us
      → (d' : Stats) × (t : Session) × (create_missing channel (map to_text us) d s ≡ (ok d', t))
        × Loaded us s t d d'
  unfolding create_missing
  create_missing_lem [] s d differ valid uuids members entries misses = (
    d,
    s,
    refl,
    record {
      entries = entries;
      present = tt;
      kept = λ k h. h;
      extends = Extends-refl channel users s valid;
    },
  )
  create_missing_lem (u ∷ us) s d differ valid uuids members entries misses =
      elim (Bool-cases (is_some (get_stat (to_text u) d))) [
        | inl there ↦
            let (d', t, e, l) =
              create_missing_lem us s d differ valid uuids.1 members.1 entries misses.1 in
            (
              d',
              t,
              rw there e,
              record {
                entries = l.entries;
                present = (l.kept (to_text u) there, l.present);
                kept = l.kept;
                extends = l.extends;
              },
            )
        | inr missing ↦
            let x =
              after-Extends channel users s u uuids.0 members.0 d (misses.0 missing) differ valid in
            let s' = after channel users s u uuids.0 members.0 d in
            let d₁ = put_stat (to_text u) (created channel users s u uuids.0 members.0 d) d in
            let (d', t, e, l) =
              create_missing_lem us s' d₁ differ x.valid uuids.1 members.1
                (put_stat-AllEntries (IsEntry channel users s') (to_text u) _ d
                  (after-IsEntry channel users s u uuids.0 members.0 d (misses.0 missing))
                  (IsEntry-Extends channel users s s' x d entries))
                (All-map (after-Misses s u uuids.0 members.0 d) us misses.1) in
            (
              d',
              t,
              rw (missing, as_uuid-to_text u uuids.0) e,
              record {
                entries = l.entries;
                present = (l.kept (to_text u) (has-put_stat_self (to_text u) _ d), l.present);
                kept = λ k h. l.kept k (has-put_stat k (to_text u) _ d h);
                extends = Extends-trans channel users s s' t x l.extends;
              },
            )
      ]

  module _ (s : Session) (valid : IsValid s) (differ : NoCollisions s.outside)
      (uuids : All IsUuid users) where
    abbrev wanted : RunnerStat → Bool
    wanted st = st.channel_id == channel && among users st.user_id

    abbrev rows : List RunnerStat
    rows = select wanted s.runner_stats

    rows-IsEntry : All (λ st. IsEntry channel users s (to_text st.user_id) st) rows
    rows-IsEntry =
        All-select (λ st. IsEntry channel users s (to_text st.user_id) st) wanted s.runner_stats
          (All-map entry s.runner_stats (
            find-same same_stat s.runner_stats (λ a. ground arith) same_stat_comm
              valid.runner_stats.distinct_keys))
      where
        entry :
            (st : RunnerStat)
            → find (same_stat st) s.runner_stats ≡ some st
            → wanted st ≡ true
            → IsEntry channel users s (to_text st.user_id) st
        entry st found w =
            let same_channel : st.channel_id ≡ channel = ground arith in
            record {
              key = refl;
              member = ground arith;
              channel_id = same_channel;
              row =
                  subst (λ c. find (stat_of c st.user_id) s.runner_stats ≡ some st) same_channel
                    found;
            }

    rows-Misses : (u : ℕ) → among users u ≡ true → Misses channel users s (by_user [] rows) u
    rows-Misses u member absent = elim (Option-cases (find (stat_of channel u) s.runner_stats)) [
      | inl missing ↦ missing
      | inr (st, there) ↦
          let owner = find-sat (stat_of channel u) s.runner_stats there in
          let user_st : st.user_id ≡ u = ground arith in
          let has =
            All-find _ (stat_of channel u) s.runner_stats
              (All-of-select _ wanted s.runner_stats (has-by_user_row [] rows)) there
              (rw user_st (ground arith)) in
          absurd (
            true≢false (
              sym (subst (λ x. is_some (get_stat (to_text x) (by_user [] rows)) ≡ true) user_st has)
              ∙ absent))
    ]

    -- Loading returns a dictionary with the row of every participant, and adds only rows of users
    -- who have not run yet.
    pub load_stats_lem :
        All (λ u. among users u ≡ true) users
        → (d : Stats) × (t : Session) × (load_stats channel (map to_text users) s ≡ (ok d, t))
          × Loaded users s t (by_user [] rows) d
    unfolding load_stats
    load_stats_lem members =
        let (d, t, e, l) =
          create_missing_lem users s (by_user [] rows) differ valid.runner_stats uuids members
            (by_user-AllEntries (IsEntry channel users s) [] rows tt rows-IsEntry)
            (All-map rows-Misses users members) in
        (d, t, rw (parse_all-to_text users uuids) e, l)
