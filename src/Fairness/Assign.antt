-- ===== src/Fairness/Assign.antt =====
-- `FairnessService.assign_runner` chooses a participant who has run least, and counts one run.
use mathlib.Core.Path.{subst, subst₂}
use mathlib.Core.Bool.{false≢true}
use coffee_buddy.Prelude.{
  ℕ, ◌+◌, ◌≤◌, ◌≡◌, ◌≢◌, refl, sym, ap, ◌∙◌, Bool, true, false, not, ◌&&◌, Option, none, some, List,
  [], ◌∷◌, ◌⊎◌, inl, inr, arith, All, ◌==◌, count_of,
}
use coffee_buddy.Text.{Text, text_eq, text_eq_refl}
use coffee_buddy.Uuid.{text, to_text}
use coffee_buddy.Schema.{Session, RunnerStat}
use coffee_buddy.Schema.Valid.{IsValid}
use coffee_buddy.Fairness.Selector.{Stats, candidates, excludes, is_other, min_stat, stat_lt}
use coffee_buddy.Fairness.Service.{FairnessDecision, among}
use coffee_buddy.Fairness.Dict.{IsUuid, text_eq-to_text}
use coffee_buddy.Fairness.Least.{min_stat_All, min_stat-IsLeast, served-le}
use coffee_buddy.Fairness.Extend.{served, All-among, IsEntry}
use coffee_buddy.Fairness.Load.{Loaded}
use coffee_buddy.Fairness.Choice.{entry_of, entry-served, values-IsEntry, excludes_last}
use coffee_buddy.Fairness.Candidates.{
  unique_users, unique_users-All, among-unique_users, candidates-All, All-candidates,
  candidates-is_other,
}

-- `user` is not the one whose text is given.
abbrev pub is_not : Option Text → ℕ → Bool
is_not none user = true
is_not (some last) user = not (text_eq (to_text user) last)

is_other-eq-is_not :
    (last : Option Text) (st : RunnerStat) → is_other last st ≡ is_not last st.user_id
is_other-eq-is_not none st = refl
is_other-eq-is_not (some l) st = refl

excludes_repeat : (last : Option Text) (d : Stats) → excludes true last d ≡ false
unfolding excludes
excludes_repeat none d = refl
excludes_repeat (some l) d = refl

module _ (channel : ℕ) (users : List ℕ) (last : Option Text) (allow : Bool) where
  -- Repeating is allowed, or `u` is not the last runner, or nobody else takes part.
  abbrev pub MayRun : ℕ → Type 0
  MayRun u = (allow ≡ true) ⊎ ((is_not last u ≡ true) ⊎ ((v : ℕ) → among users v ≡ true → v ≡ u))

  -- What an assignment that returns has done, for the participants `users`.
  pub record Assigned (s t : Session) (decision : FairnessDecision) : Type 0 where
    pub runner : ℕ
    pub text : decision.runner_user_id ≡ to_text runner
    pub participant : among users runner ≡ true
    pub fewest :
        (u : ℕ) → among users u ≡ true → MayRun u → served s channel runner ≤ served s channel u
    pub excluded :
        (l u : ℕ)
        → allow ≡ false
        → last ≡ some (to_text l)
        → among users l ≡ true
        → among users u ≡ true
        → u ≢ l
        → decision.rationale.excluded_last_runner ≡ true
    pub included : allow ≡ true → decision.rationale.excluded_last_runner ≡ false
    pub previous : decision.rationale.previous_count ≡ served s channel runner
    pub counts : (c u : ℕ) → served t c u ≡ served s c u + count_of (runner == u && channel == c)
    pub repeats :
        (l u : ℕ)
        → allow ≡ false
        → last ≡ some (to_text l)
        → among users l ≡ true
        → among users u ≡ true
        → u ≢ l
        → runner ≢ l
    pub valid : IsValid t
    pub rest : t ≡ record s {
      clock_reads = t.clock_reads;
      uuids_drawn = t.uuids_drawn;
      runner_stats = t.runner_stats;
    }

module _ (channel first : ℕ) (rest_users : List ℕ) (last : Option Text) (allow : Bool)
    (channel_uuid : IsUuid channel) (uuids : All IsUuid (first ∷ rest_users)) where
  abbrev users : List ℕ
  users = first ∷ rest_users

  abbrev us : List ℕ
  us = unique_users [] users

  IsUuid-of : (u : ℕ) → among users u ≡ true → IsUuid u
  IsUuid-of u = All-among IsUuid users u uuids

  us_uuids : All IsUuid us
  us_uuids = unique_users-All IsUuid [] users uuids

  among-us : (u : ℕ) → among users u ≡ among us u
  among-us u = unfold among in ground (arith, among-unique_users [] users u)

  module _ (s m : Session) (d start : Stats) (loaded : Loaded channel us us s m start d)
      (chosen : RunnerStat) (least : min_stat (candidates allow last d) ≡ some chosen)
      (valid : IsValid m) where
    abbrev decided : RunnerStat → FairnessDecision
    decided before = record {
      runner_user_id = to_text chosen.user_id;
      rationale = record {
        previous_count = before.runs_served_count;
        excluded_last_runner = excludes allow last d;
      };
    }

    entry : IsEntry channel us m (to_text chosen.user_id) chosen
    entry =
        min_stat_All (λ st. IsEntry channel us m (to_text st.user_id) st) (candidates allow last d)
          least
          (candidates-All allow last d _ (values-IsEntry channel us s m d start us_uuids loaded))

    left_in :
        (st : RunnerStat) (u : ℕ)
        → st.user_id ≡ u
        → (excludes allow last d ≡ false) ⊎ (is_not last u ≡ true)
        → (excludes allow last d ≡ false) ⊎ (is_other last st ≡ true)
    left_in st u same (inl e) = inl e
    left_in st u same (inr other) = inr (is_other-eq-is_not last st ∙ ap (is_not last) same ∙ other)

    fewest_of :
        (u : ℕ)
        → among users u ≡ true
        → (excludes allow last d ≡ false) ⊎ (is_not last u ≡ true)
        → served s channel chosen.user_id ≤ served s channel u
    fewest_of u member eligible =
        let (st, there, same, found) =
          entry_of channel us s m d start us_uuids loaded u (sym (among-us u) ∙ member) in
        let not_before =
          All-candidates allow last d (λ x. stat_lt x chosen ≡ false) (to_text u) st
            (min_stat-IsLeast (candidates allow last d) least) there (left_in st u same eligible) in
        subst₂ ◌≤◌
          (entry-served channel us s m d start us_uuids loaded chosen.user_id chosen entry.row)
          (entry-served channel us s m d start us_uuids loaded u st found)
          (served-le chosen st not_before)

    allowed : allow ≡ true → excludes allow last d ≡ false
    allowed e = rw e (excludes_repeat last d)

    fewest :
        (u : ℕ)
        → among users u ≡ true
        → MayRun channel users last allow u
        → served s channel chosen.user_id ≤ served s channel u
    fewest u member (inl e) = fewest_of u member (inl (allowed e))
    fewest u member (inr (inl other)) = fewest_of u member (inr other)
    fewest u member (inr (inr alone)) =
        subst (λ v. served s channel v ≤ served s channel u)
          (sym (alone chosen.user_id (among-us chosen.user_id ∙ entry.member))) (omega arith)

    excluded :
        (l u : ℕ)
        → allow ≡ false
        → last ≡ some (to_text l)
        → among users l ≡ true
        → among users u ≡ true
        → u ≢ l
        → excludes allow last d ≡ true
    excluded l u once same member_l member_u differ =
        subst₂ (λ a x. excludes a x d ≡ true) (sym once) (sym same)
          (excludes_last channel us s m d start us_uuids loaded l u (sym (among-us l) ∙ member_l)
            (sym (among-us u) ∙ member_u) differ)

    repeats :
        (l u : ℕ)
        → allow ≡ false
        → last ≡ some (to_text l)
        → among users l ≡ true
        → among users u ≡ true
        → u ≢ l
        → chosen.user_id ≢ l
    repeats l u once same member_l member_u differ is_last =
        let in_us = λ (v : ℕ) (h : among users v ≡ true). sym (among-us v) ∙ h in
        let left_out = excluded l u once same member_l member_u differ in
        let (st, there, user_st, _) =
          entry_of channel us s m d start us_uuids loaded u (in_us u member_u) in
        let other : is_other last st ≡ true =
          subst (λ x. is_other x st ≡ true) (sym same)
            (ap (λ v. not (text_eq (to_text v) (to_text l))) user_st
              ∙ ap not (text_eq-to_text u l (IsUuid-of u member_u) (IsUuid-of l member_l))
              ∙ ground arith) in
        let chosen_other : is_other last chosen ≡ true =
          min_stat_All (λ y. is_other last y ≡ true) (candidates allow last d) least
            (candidates-is_other allow last d left_out (to_text u) st there other) in
        false≢true (
          sym (ap not (text_eq_refl (to_text l)))
          ∙ ap (λ v. not (text_eq (to_text v) (to_text l))) (sym is_last)
          ∙ subst (λ x. is_other x chosen ≡ true) same chosen_other)
