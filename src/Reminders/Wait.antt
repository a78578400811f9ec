-- ===== src/Reminders/Wait.antt =====
-- `ReminderWorker._wait_until` ends, and not too early.
use coffee_buddy.Prelude.{
  ℕ, zero, suc, ◌+◌, ◌≤◌, ◌≡◌, refl, sym, ◌∙◌, ◌⊎◌, inl, inr, some, leb, arith, Bool-cases,
}
use coffee_buddy.Number.{ℤ, pos, negsuc, pos_part, neg_part, ◌-ℤ◌}
use coffee_buddy.Reminders.Worker.{Surroundings, nap, wait_until}

-- The target is not later than the time.
abbrev pub Reached : ℤ → ℕ → Type 0
Reached target now = pos_part target ≤ now + neg_part target

-- So many microseconds are left.
abbrev Left : ℤ → ℕ → ℕ → Type 0
Left target now d = pos_part target ≡ now + neg_part target + d

-- A sleep lasts at least as long as it is asked to.
abbrev pub SleepsEnough : Surroundings → Type 0
SleepsEnough w = (now delay : ℕ) → now + delay ≤ w.wake now delay

-- A sleep lasts at most so much longer than it is asked to.
abbrev pub SleepsWithin : ℕ → Surroundings → Type 0
SleepsWithin slack w = (now delay : ℕ) → w.wake now delay ≤ now + delay + slack

module _ (w : Surroundings) (tolerance target : ℤ) where
  -- A round either returns, as the target is reached, or sleeps.
  round :
      (fuel now : ℕ)
      → ((wait_until w tolerance target (suc fuel) now ≡ some now) × Reached target now)
        ⊎ ((d : ℕ) × Left target now (suc d)
            × (wait_until w tolerance target (suc fuel) now
                ≡ wait_until w tolerance target fuel (w.wake now (nap tolerance (suc d)))))
  unfolding wait_until
  round fuel now = by_left (target -ℤ pos now) refl
    where
      by_left :
          (z : ℤ)
          → target -ℤ pos now ≡ z
          → ((wait_until w tolerance target (suc fuel) now ≡ some now) × Reached target now)
            ⊎ ((d : ℕ) × Left target now (suc d)
                × (wait_until w tolerance target (suc fuel) now
                    ≡ wait_until w tolerance target fuel (w.wake now (nap tolerance (suc d)))))
      by_left (negsuc n) e = inl (rw (e, wait_until) refl, ground arith)
      by_left (pos zero) e = inl (rw (e, wait_until) refl, ground arith)
      by_left (pos (suc d)) e = inr (d, ground arith, rw (e, wait_until) refl)

  module _ (enough : SleepsEnough w) where
    -- After a nap as long as what is left, the target is reached.
    long_nap :
        (fuel now d : ℕ)
        → Left target now (suc d)
        → suc d ≤ nap tolerance (suc d)
        → (wait_until w tolerance target (suc fuel) (w.wake now (nap tolerance (suc d)))
            ≡ some (w.wake now (nap tolerance (suc d))))
          × Reached target (w.wake now (nap tolerance (suc d)))
    long_nap fuel now d left h = elim (round fuel (w.wake now (nap tolerance (suc d)))) [
      | inl r ↦ r
      | inr (e, left', _) ↦ absurd (omega (arith, enough now (nap tolerance (suc d))))
    ]

    -- The nap is either as long as what is left, or leaves at most the tolerance.
    nap_cases :
        (d : ℕ)
        → (suc d ≤ nap tolerance (suc d))
          ⊎ ((k : ℕ) × (tolerance ≡ pos k) × (nap tolerance (suc d) + k ≡ suc d))
    nap_cases d = by_tolerance tolerance
      where
        by_tolerance :
            (z : ℤ)
            → (suc d ≤ nap z (suc d)) ⊎ ((k : ℕ) × (z ≡ pos k) × (nap z (suc d) + k ≡ suc d))
        by_tolerance (negsuc n) = inl (omega arith)
        by_tolerance (pos k) = elim (Bool-cases (leb (suc d) k)) [
          | inl e ↦ inl (rw e (omega arith))
          | inr e ↦ inr (k, refl, rw e (ground arith))
        ]

    within_tolerance : (k d : ℕ) → tolerance ≡ pos k → suc d ≤ k → suc d ≤ nap tolerance (suc d)
    within_tolerance k d e h = rw e (ground arith)

    -- After a first nap that leaves at most the tolerance, one more round is enough.
    short_nap :
        (k now d : ℕ)
        → Left target now (suc d)
        → tolerance ≡ pos k
        → nap tolerance (suc d) + k ≡ suc d
        → (t : ℕ) × (wait_until w tolerance target 2 (w.wake now (nap tolerance (suc d))) ≡ some t)
          × Reached target t
    short_nap k now d left e h = elim (round 1 (w.wake now (nap tolerance (suc d)))) [
      | inl (returns, reached) ↦ (w.wake now (nap tolerance (suc d)), returns, reached)
      | inr (d', left', sleeps) ↦
          let m = w.wake now (nap tolerance (suc d)) in
          let (returns, reached) =
            long_nap 0 m d' left'
              (within_tolerance k d' e (omega (arith, enough now (nap tolerance (suc d))))) in
          (w.wake m (nap tolerance (suc d')), sleeps ∙ returns, reached)
    ]

    -- Where a sleep lasts at least as long as it is asked to, the wait ends within three rounds,
    -- whatever the tolerance, and not before the time for which the reminder is scheduled.
    pub wait_until-ends :
        (now : ℕ) → (t : ℕ) × (wait_until w tolerance target 3 now ≡ some t) × Reached target t
    wait_until-ends now = elim (round 2 now) [
      | inl (returns, reached) ↦ (now, returns, reached)
      | inr (d, left, sleeps) ↦ elim (nap_cases d) [
        | inl long ↦
            let (returns, reached) = long_nap 1 now d left long in
            (w.wake now (nap tolerance (suc d)), sleeps ∙ returns, reached)
        | inr (k, e, h) ↦
            let (t, returns, reached) = short_nap k now d left e h in (t, sleeps ∙ returns, reached)
      ]
    ]

  module _ (slack : ℕ) (within : SleepsWithin slack w) (k : ℕ) (tolerant : tolerance ≡ pos k) where
    nap-le : (d : ℕ) → nap tolerance (suc d) ≤ suc d
    nap-le d = rw tolerant (ground arith)

    -- With sleeps that end in time, a round ends with at most the slack after the target.
    prompt_from :
        (fuel now t : ℕ)
        → now + neg_part target ≤ pos_part target + slack
        → wait_until w tolerance target fuel now ≡ some t
        → t + neg_part target ≤ pos_part target + slack
    prompt_from zero now t h e = absurd (unfold wait_until in (cc))
    prompt_from (suc fuel) now t h e = elim (round fuel now) [
      | inl (returns, reached) ↦ let same : some now ≡ some t = sym returns ∙ e in ground arith
      | inr (d, left, sleeps) ↦
          prompt_from fuel (w.wake now (nap tolerance (suc d))) t
            (omega (arith, within now (nap tolerance (suc d)), nap-le d)) (sym sleeps ∙ e)
    ]

    -- Where the tolerance is not negative and a sleep lasts at most `slack` longer than it is asked
    -- to: a wait that returns either returns at once, or at most `slack` after the target.
    pub wait_until_prompt :
        (fuel now t : ℕ)
        → wait_until w tolerance target (suc fuel) now ≡ some t
        → (t ≡ now) ⊎ (t + neg_part target ≤ pos_part target + slack)
    wait_until_prompt fuel now t e = elim (round fuel now) [
      | inl (returns, reached) ↦
          let same : some now ≡ some t = sym returns ∙ e in inl (ground arith)
      | inr (d, left, sleeps) ↦ inr (
          prompt_from fuel (w.wake now (nap tolerance (suc d))) t
            (omega (arith, within now (nap tolerance (suc d)), nap-le d)) (sym sleeps ∙ e))
    ]
