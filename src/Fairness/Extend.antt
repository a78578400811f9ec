-- ===== src/Fairness/Extend.antt =====
-- One round of the loop of `_load_stats`: what it adds to the table of statistics.
use mathlib.Core.Path.{subst}
use coffee_buddy.Prelude.{
  ℕ, ◌+◌, ◌≤◌, ◌≡◌, refl, sym, ap, ◌∙◌, true, false, Option, none, some, List, [], ◌∷◌, ◌++◌, map,
  inl, inr, arith, All, All-map, Bool-cases, Option-cases, is_some, ◌==◌, ==_iff, ==_refl,
}
use coffee_buddy.Prelude.Rows.{find, find-append, find-append_some}
use coffee_buddy.Effects.{ok}
use coffee_buddy.Text.{Text}
use coffee_buddy.Uuid.{text, to_text, as_uuid}
use coffee_buddy.Uuid.RoundTrip.{of_text-to_text}
use coffee_buddy.Schema.{Session, RunnerStat, NoCollisions}
use coffee_buddy.Schema.Tables.{IsTable, IsTable-insert, IsTable-later}
use coffee_buddy.Schema.Valid.{IsValid, same_stat, same_stat_comm}
use coffee_buddy.Fairness.Selector.{Stats, get_stat, put_stat}
use coffee_buddy.Fairness.Service.{parse_all, among, stat_of, create_stat}
use coffee_buddy.Fairness.Dict.{IsUuid, AllEntries}

-- How often a user has run for a channel.
abbrev pub count_in : Option RunnerStat → ℕ
count_in none = 0
count_in (some st) = st.runs_served_count

abbrev pub served : Session → (channel user : ℕ) → ℕ
served s channel user = count_in (find (stat_of channel user) s.runner_stats)

-- The text of an identifier is read back.
pub as_uuid-to_text : (u : ℕ) → IsUuid u → as_uuid (text (to_text u)) ≡ some u
unfolding as_uuid
as_uuid-to_text u h = of_text-to_text u h

pub parse_all-to_text : (us : List ℕ) → All IsUuid us → parse_all (map to_text us) ≡ some us
unfolding parse_all
parse_all-to_text [] h = refl
parse_all-to_text (u ∷ us) h = ground (arith, as_uuid-to_text u h.0, parse_all-to_text us h.1)

pub All-among : (P : ℕ → Type 0) (us : List ℕ) (u : ℕ) → All P us → among us u ≡ true → P u
unfolding among
All-among P [] u h e = absurd (cc)
All-among P (x ∷ xs) u h e = elim (Bool-cases (x == u)) [
  | inl same ↦ subst P ((==_iff x u).0 same) h.0
  | inr other ↦ All-among P xs u h.1 (rw other at e)
]

module _ (channel : ℕ) (users : List ℕ) where
  -- An entry is the row of its user and the channel, and the user is one of `users`.
  pub record IsEntry (s : Session) (k : Text) (st : RunnerStat) : Type 0 where
    pub key : k ≡ to_text st.user_id
    pub member : among users st.user_id ≡ true
    pub channel_id : st.channel_id ≡ channel
    pub row : find (stat_of channel st.user_id) s.runner_stats ≡ some st

  -- What the session after the loading has more than the one before.
  pub record Extends (s t : Session) : Type 0 where
    pub rows :
        (c u : ℕ) (st : RunnerStat)
        → find (stat_of c u) s.runner_stats ≡ some st
        → find (stat_of c u) t.runner_stats ≡ some st
    pub counts : (c u : ℕ) → served t c u ≡ served s c u
    pub drawn : s.uuids_drawn ≤ t.uuids_drawn
    pub valid : IsTable (λ (r : RunnerStat). r.id) same_stat s.outside t.uuids_drawn t.runner_stats
    pub rest : t ≡ record s {
      clock_reads = t.clock_reads;
      uuids_drawn = t.uuids_drawn;
      runner_stats = t.runner_stats;
    }

  abbrev pub Misses : Session → Stats → ℕ → Type 0
  Misses s d u =
      is_some (get_stat (to_text u) d) ≡ false → find (stat_of channel u) s.runner_stats ≡ none

  module _ (s : Session) (u : ℕ) (is_uuid : IsUuid u) (member : among users u ≡ true)
      (d : Stats) where
    abbrev pub created : RunnerStat
    created = record {
      id = s.outside.uuid4 s.uuids_drawn;
      user_id = u;
      channel_id = channel;
      runs_served_count = 0;
      last_run_at = none;
      created_at = s.outside.clock s.clock_reads;
      updated_at = s.outside.clock s.clock_reads;
    }

    abbrev pub after : Session
    after = record s {
      clock_reads = s.clock_reads + 1;
      uuids_drawn = s.uuids_drawn + 1;
      runner_stats = s.runner_stats ++ created ∷ [];
    }

    create_stat_lem :
        create_stat channel (to_text u) d s ≡ (ok (put_stat (to_text u) created d), after)
    create_stat_lem = rw (as_uuid-to_text u is_uuid)

    module _ (absent : find (stat_of channel u) s.runner_stats ≡ none) where
      after-counts : (c v : ℕ) → served after c v ≡ served s c v
      after-counts c v = elim (Option-cases (find (stat_of c v) s.runner_stats)) [
        | inl missing ↦
            ground (arith, missing, find-append (stat_of c v) s.runner_stats created missing)
        | inr (st, there) ↦
            ground
              (arith, there, find-append_some (stat_of c v) s.runner_stats created {a = st} there)
      ]

      pub after-Extends :
          NoCollisions s.outside
          → IsTable (λ (r : RunnerStat). r.id) same_stat s.outside s.uuids_drawn s.runner_stats
          → Extends s after
      after-Extends differ valid = record {
        rows = λ c v st there. find-append_some (stat_of c v) s.runner_stats created there;
        counts = after-counts;
        drawn = omega arith;
        valid =
            IsTable-insert _ same_stat s.outside created differ same_stat_comm refl absent valid;
        rest = refl;
      }

      pub after-IsEntry : IsEntry after (to_text u) created
      after-IsEntry = record {
        key = refl;
        member = member;
        channel_id = refl;
        row =
            find-append (stat_of channel u) s.runner_stats created absent
            ∙ (rw (==_refl u, ==_refl channel));
      }

  pub Extends-refl :
      (s : Session)
      → IsTable (λ (r : RunnerStat). r.id) same_stat s.outside s.uuids_drawn s.runner_stats
      → Extends s s
  Extends-refl s valid = record {
    rows = λ c u st h. h;
    counts = λ c u. refl;
    drawn = omega arith;
    valid = valid;
    rest = refl;
  }

  pub Extends-trans : (s m t : Session) → Extends s m → Extends m t → Extends s t
  Extends-trans s m t a b = record {
    rows = λ c u st h. b.rows c u st (a.rows c u st h);
    counts = λ c u. b.counts c u ∙ a.counts c u;
    drawn = omega (arith, a.drawn, b.drawn);
    valid =
        subst (λ o. IsTable (λ (r : RunnerStat). r.id) same_stat o t.uuids_drawn t.runner_stats)
          (ap (λ x. x.outside) a.rest) b.valid;
    rest =
        b.rest
        ∙ ap
            (λ (x : Session). record x {
              clock_reads = t.clock_reads;
              uuids_drawn = t.uuids_drawn;
              runner_stats = t.runner_stats;
            })
            a.rest;
  }

  pub Extends-IsValid : (s t : Session) → IsValid s → Extends s t → IsValid t
  Extends-IsValid s t valid x = subst IsValid (sym x.rest) (record {
    orders = IsTable-later _ _ _ x.drawn valid.orders;
    preferences = IsTable-later _ _ _ x.drawn valid.preferences;
    runner_stats = x.valid;
  })

  pub IsEntry-Extends :
      (s t : Session)
      → Extends s t
      → (d : Stats) → AllEntries (IsEntry s) d
      → AllEntries (IsEntry t) d
  IsEntry-Extends s t x d =
      All-map
        (λ e i. record {
          key = i.key;
          member = i.member;
          channel_id = i.channel_id;
          row = x.rows channel e.1.user_id e.1 i.row;
        })
        d
