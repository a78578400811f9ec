-- ===== src/Runs/Frame.antt =====
-- What a call of the fairness service leaves alone, whether it returns or raises.
use coffee_buddy.Prelude.{
  ℕ, ◌≡◌, refl, ap, ◌∙◌, Bool, true, false, Option, none, some, List, [], ◌∷◌, inl, inr,
  Option-cases, ◌⊎◌, is_some,
}
use coffee_buddy.Effects.{Result, ok, raised, Exec, some_or, and_then, ◌>>=◌}
use coffee_buddy.Text.{Text}
use coffee_buddy.Uuid.{Ref, text, as_uuid, to_text}
use coffee_buddy.Schema.{Session}
use coffee_buddy.Runs.Models.{RunCloseError}
use coffee_buddy.Fairness.Selector.{Stats, get_stat, min_stat, candidates, unique_ordered}
use coffee_buddy.Fairness.Service.{
  parse_all, create_stat, keep_or_create, create_missing, load_stats, choose_runner, assign_runner,
}

-- Only the statistics differ.
abbrev pub StatsOnly : Session → Session → Type 0
StatsOnly s t = t ≡ record s {
  clock_reads = t.clock_reads;
  uuids_drawn = t.uuids_drawn;
  runner_stats = t.runner_stats;
}

pub StatsOnly-trans : (s m t : Session) → StatsOnly s m → StatsOnly m t → StatsOnly s t
StatsOnly-trans s m t h k =
    k
    ∙ ap
        (λ (x : Session). record x {
          clock_reads = t.clock_reads;
          uuids_drawn = t.uuids_drawn;
          runner_stats = t.runner_stats;
        })
        h

-- Whatever the state, the action changes the statistics at most.
module _ {A : Type 0} where
  abbrev pub KeepsRest : Exec Session RunCloseError A → Type 0
  KeepsRest m = (s : Session) → StatsOnly s (m s).1

bound-KeepsRest :
    {A B : Type 0} (f : A → Exec Session RunCloseError B) (s : Session)
    (r : Result RunCloseError A × Session)
    → StatsOnly s r.1
    → ((a : A) → KeepsRest (f a))
    → StatsOnly s (and_then r.0 f r.1).1
bound-KeepsRest f s (ok a, m) h k = StatsOnly-trans s m (f a m).1 h (k a m)
bound-KeepsRest f s (raised e, m) h k = h

module _ {A B : Type 0} (m : Exec Session RunCloseError A)
    (f : A → Exec Session RunCloseError B) where
  pub bind-KeepsRest : KeepsRest m → ((a : A) → KeepsRest (f a)) → KeepsRest (m >>= f)
  bind-KeepsRest h k s = bound-KeepsRest f s (m s) (h s) k

some_or-KeepsRest : {A : Type 0} (e : RunCloseError) (o : Option A) → KeepsRest (some_or e o)
some_or-KeepsRest e none s = refl
some_or-KeepsRest e (some a) s = refl

create_stat-KeepsRest : (channel : ℕ) (p : Text) (d : Stats) → KeepsRest (create_stat channel p d)
create_stat-KeepsRest channel p d s = elim (Option-cases (as_uuid (text p))) [
  | inl e ↦ rw e refl
  | inr (u, e) ↦ rw e refl
]

create_missing-KeepsRest :
    (channel : ℕ) (ps : List Text) (d : Stats) → KeepsRest (create_missing channel ps d)
unfolding create_missing
create_missing-KeepsRest channel [] d s = refl
create_missing-KeepsRest channel (p ∷ ps) d s =
    bind-KeepsRest (keep_or_create (is_some (get_stat p d)) channel p d)
      (λ d'. create_missing channel ps d') (kept (is_some (get_stat p d)))
      (λ d'. create_missing-KeepsRest channel ps d') s
  where
    kept : (b : Bool) → KeepsRest (keep_or_create b channel p d)
    kept true m = refl
    kept false m = create_stat-KeepsRest channel p d m

load_stats-KeepsRest : (channel : ℕ) (ps : List Text) → KeepsRest (load_stats channel ps)
unfolding load_stats
load_stats-KeepsRest channel ps s = elim (Option-cases (parse_all ps)) [
  | inl e ↦ rw e refl
  | inr (us, e) ↦ rw e (create_missing-KeepsRest channel ps _ s)
]

choose_runner-KeepsRest :
    (last : Option Text) (allow : Bool) (d : Stats) → KeepsRest (choose_runner last allow d)
choose_runner-KeepsRest last allow d s = elim (Option-cases (min_stat (candidates allow last d))) [
  | inl e ↦ rw e refl
  | inr (chosen, e) ↦ elim (Option-cases (get_stat (to_text chosen.user_id) d)) [
    | inl k ↦ rw (e, k) refl
    | inr (before, k) ↦ rw (e, k) refl
  ]
]

nonempty_cases : (ps : List Text) → (ps ≡ []) ⊎ ((q : Text) × (qs : List Text) × (ps ≡ q ∷ qs))
nonempty_cases [] = inl refl
nonempty_cases (p ∷ ps) = inr (p, ps, refl)

pub assign_runner-KeepsRest :
    (channel : Ref) (users : List Ref) (last : Option Text) (allow : Bool)
    → KeepsRest (assign_runner channel users last allow)
unfolding assign_runner
assign_runner-KeepsRest channel users last allow s = elim (nonempty_cases (unique_ordered users)) [
  | inl e ↦ rw e refl
  | inr (p, ps, e) ↦ elim (Option-cases (as_uuid channel)) [
    | inl k ↦ rw (e, k) refl
    | inr (c, k) ↦
        rw (e, k)
          (bind-KeepsRest (load_stats c (p ∷ ps)) (choose_runner last allow)
            (load_stats-KeepsRest c (p ∷ ps)) (choose_runner-KeepsRest last allow) s)
  ]
]
