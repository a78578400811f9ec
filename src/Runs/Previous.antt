-- ===== src/Runs/Previous.antt =====
-- `_get_previous_runner_id`: the runner of the run of the channel that was closed last.
use mathlib.Core.Path.{subst, subst₂}
use coffee_buddy.Prelude.{
  ℕ, ◌≤◌, ◌≡◌, ◌≢◌, Bool, Option-cases, All-map, is_some, ap, refl, sym, true, false, none, some,
  List, [], ◌∷◌, ◌⊎◌, inl, inr, arith, All, Bool-cases, if◌then◌else◌, ltb,
}
use coffee_buddy.Prelude.Rows.{select, All-of-select}
use coffee_buddy.Effects.{ok}
use coffee_buddy.Uuid.{to_text}
use coffee_buddy.Schema.{Session, Run, RunStatus, open_, closed, canceled, failed}
use coffee_buddy.Runs.Service.{
  is_previous, closed_time, is_closed, latest_from, runner_text, get_previous_runner_id,
}

module _ (P : Run → Type 0) where
  latest_from_All : (best : Run) (rs : List Run) → P best → All P rs → P (latest_from best rs)
  unfolding latest_from
  latest_from_All best [] h hs = h
  latest_from_All best (r ∷ rs) h hs = elim (Bool-cases (ltb (closed_time best) (closed_time r))) [
    | inl e ↦ rw e (latest_from_All r rs hs.0 hs.1)
    | inr e ↦ rw e (latest_from_All best rs h hs.1)
  ]

-- What the later of two runs is before, both are.
later_le :
    (best r : Run) (n : ℕ)
    → closed_time (if ltb (closed_time best) (closed_time r) then r else best) ≤ n
    → (closed_time best ≤ n) × (closed_time r ≤ n)
later_le best r n h = elim (Bool-cases (ltb (closed_time best) (closed_time r))) [
  | inl e ↦ let k : closed_time r ≤ n = rw e at h in (omega (arith, ltb_lt _ _ e), k)
  | inr e ↦ let k : closed_time best ≤ n = rw e at h in (k, omega (arith, ltb_ge _ _ e))
]
  where
    ltb_lt : (a b : ℕ) → ltb a b ≡ true → a ≤ b
    ltb_lt a b e = ground arith

    ltb_ge : (a b : ℕ) → ltb a b ≡ false → b ≤ a
    ltb_ge a b e = ground arith

-- Nothing in the list was closed after it.
latest_from-le :
    (best : Run) (rs : List Run)
    → (closed_time best ≤ closed_time (latest_from best rs))
      × All (λ r. closed_time r ≤ closed_time (latest_from best rs)) rs
unfolding latest_from
latest_from-le best [] = (omega arith, tt)
latest_from-le best (r ∷ rs) =
    let (first, rest) =
      latest_from-le (if ltb (closed_time best) (closed_time r) then r else best) rs in
    let (before_best, before_r) = later_le best r _ first in (before_best, (before_r, rest))

rows_cases : (rs : List Run) → (rs ≡ []) ⊎ ((q : Run) × (qs : List Run) × (rs ≡ q ∷ qs))
rows_cases [] = inl refl
rows_cases (r ∷ rs) = inr (r, rs, refl)

-- Another run of the channel of `run` that was closed, at `time`, with this runner.
pub record IsEarlier (run r : Run) (time user : ℕ) : Type 0 where
  pub same_channel : r.channel_id ≡ run.channel_id
  pub another : r.id ≢ run.id
  pub status : r.status ≡ closed
  pub closed_at : r.closed_at ≡ some time
  pub runner : r.runner_user_id ≡ some user

-- The run is one of these.
abbrev pub In : Run → List Run → Type 0
In r [] = ⊥
In r (x ∷ xs) = (x ≡ r) ⊎ In r xs

is_closed_eq : (x : RunStatus) → is_closed x ≡ true → x ≡ closed
is_closed_eq open_ h = absurd (cc)
is_closed_eq closed h = refl
is_closed_eq canceled h = absurd (cc)
is_closed_eq failed h = absurd (cc)

is_previous-IsEarlier :
    (run r : Run) → is_previous run r ≡ true → (time : ℕ) × (user : ℕ) × IsEarlier run r time user
is_previous-IsEarlier run r h = elim (Option-cases r.closed_at) [
  | inl e ↦ absurd (ground arith)
  | inr (time, e) ↦ elim (Option-cases r.runner_user_id) [
    | inl f ↦ absurd (ground arith)
    | inr (user, f) ↦ (
      time,
      user,
      record {
        same_channel = ground arith;
        another = λ same. absurd (ground arith);
        status = is_closed_eq r.status (ground arith);
        closed_at = e;
        runner = f;
      },
    )
  ]
]

IsEarlier-is_previous :
    (run r : Run) (time user : ℕ)
    → IsEarlier run r time user
    → (is_previous run r ≡ true)
      × (closed_time r ≡ time)
      × (runner_text (some r) ≡ some (to_text user))
IsEarlier-is_previous run r time user e = (
  ground (
    arith,
    e.same_channel,
    e.another,
    ap is_closed e.status,
    ap is_some e.closed_at,
    ap is_some e.runner,
  ),
  rw e.closed_at refl,
  rw e.runner refl,
)

select-In : (p : Run → Bool) (xs : List Run) → All (λ r. In r xs × (p r ≡ true)) (select p xs)
unfolding select
select-In p [] = tt
select-In p (x ∷ xs) = elim (Bool-cases (p x)) [
  | inl e ↦ rw e ((inl refl, e), All-map (λ r h. (inr h.0, h.1)) (select p xs) (select-In p xs))
  | inr e ↦ rw e (All-map (λ r h. (inr h.0, h.1)) (select p xs) (select-In p xs))
]

-- What `_get_previous_runner_id` returns for `run`, where `b` is the run it takes.
abbrev pub IsLatest : Run → List Run → Run → (time user : ℕ) → Type 0
IsLatest run runs b time user =
    In b runs
    × IsEarlier run b time user
    × All (λ r. (t : ℕ) (u : ℕ) → IsEarlier run r t u → t ≤ time) runs

module _ (run : Run) (s : Session) where
  none-IsEarlier :
      select (is_previous run) s.runs ≡ []
      → All (λ r. (t : ℕ) (u : ℕ) → IsEarlier run r t u → ⊥) s.runs
  none-IsEarlier e =
      All-map (λ r h t u earlier. h (IsEarlier-is_previous run r t u earlier).0) s.runs
        (All-of-select (λ r. ⊥) (is_previous run) s.runs (subst (All (λ r. ⊥)) (sym e) tt))

  some-IsLatest :
      (q : Run) (qs : List Run)
      → select (is_previous run) s.runs ≡ q ∷ qs
      → (b : Run) × (time : ℕ) × (user : ℕ) × (b ≡ latest_from q qs)
        × IsLatest run s.runs b time user
  some-IsLatest q qs e =
      let b = latest_from q qs in
      let chosen =
        subst (All (λ r. In r s.runs × (is_previous run r ≡ true))) e
          (select-In (is_previous run) s.runs) in
      let (there, previous) =
        latest_from_All (λ r. In r s.runs × (is_previous run r ≡ true)) q qs chosen.0 chosen.1 in
      let (time, user, earlier) = is_previous-IsEarlier run b previous in
      let closed_then = (IsEarlier-is_previous run b time user earlier).1 in
      (
        b,
        time,
        user,
        refl,
        (
          there,
          earlier,
          All-map
              (λ r h t u before.
                let (is, at, _) = IsEarlier-is_previous run r t u before in
                subst₂ ◌≤◌ at closed_then (h is))
              s.runs
              (All-of-select (λ r. closed_time r ≤ closed_time b) (is_previous run) s.runs
                (subst (All (λ r. closed_time r ≤ closed_time b)) (sym e) (latest_from-le q qs))),
        ),
      )

  -- Either the table has no other closed run of the channel with a time of closing and a runner,
  -- and there is no previous runner; or the previous runner is that of such a run, after which no
  -- other such run was closed.
  pub get_previous_runner_id_lem :
      ((get_previous_runner_id run s ≡ (ok none, s))
        × All (λ r. (t : ℕ) (u : ℕ) → IsEarlier run r t u → ⊥) s.runs)
      ⊎ ((b : Run) × (time : ℕ) × (user : ℕ) × IsLatest run s.runs b time user
          × (get_previous_runner_id run s ≡ (ok (some (to_text user)), s)))
  unfolding get_previous_runner_id
  get_previous_runner_id_lem = elim (rows_cases (select (is_previous run) s.runs)) [
    | inl e ↦ inl (rw e refl, none-IsEarlier e)
    | inr (q, qs, e) ↦
        let (b, time, user, same, latest) = some-IsLatest q qs e in
        inr (
          b,
          time,
          user,
          latest,
          rw (e, sym same) (ap (λ t. (ok t, s)) (IsEarlier-is_previous run b time user latest.1).2),
        )
  ]
