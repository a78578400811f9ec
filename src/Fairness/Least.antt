-- ===== src/Fairness/Least.antt =====
-- `min` by the sort key returns a least element of the list.
use mathlib.Core.Path.{subst}
use mathlib.Core.Option.{some-injective}
use coffee_buddy.Prelude.{
  ◌≤◌, ◌≡◌, true, false, ◌||◌, some, List, [], ◌∷◌, inl, inr, arith, All, Bool-cases, if◌then◌else◌,
}
use coffee_buddy.Text.Order.{text_lt_irrefl, text_lt_trans, text_lt_split}
use coffee_buddy.Schema.{RunnerStat}
use coffee_buddy.Fairness.Selector.{SortKey, sort_key, key_lt, stat_lt, min_from, min_stat}

key_lt_irrefl : (a : SortKey) → key_lt a a ≡ false
unfolding key_lt
key_lt_irrefl a = ground (arith, text_lt_irrefl a.user)

key_lt_trans : (a b c : SortKey) → key_lt a b ≡ true → key_lt b c ≡ true → key_lt a c ≡ true
unfolding key_lt
key_lt_trans a b c h k = ground (arith, text_lt_trans a.user b.user c.user)

key_lt_split : (a b c : SortKey) → key_lt a c ≡ true → (key_lt a b || key_lt b c) ≡ true
unfolding key_lt
key_lt_split a b c h = ground (arith, text_lt_split a.user b.user c.user)

-- A row before which none of the list comes.
abbrev pub IsLeast : RunnerStat → List RunnerStat → Type 0
IsLeast best = All (λ st. stat_lt st best ≡ false)

-- What does not come after the better of two rows comes after neither.
neither_before :
    (best st m : RunnerStat)
    → stat_lt (if stat_lt st best then st else best) m ≡ false
    → (stat_lt best m ≡ false) × (stat_lt st m ≡ false)
neither_before best st m h = (
  ground (arith, key_lt_trans (sort_key st) (sort_key best) (sort_key m)),
  ground (arith, key_lt_split (sort_key st) (sort_key best) (sort_key m)),
)

min_from-IsLeast :
    (best : RunnerStat) (rest : List RunnerStat)
    → (stat_lt best (min_from best rest) ≡ false) × IsLeast (min_from best rest) rest
unfolding min_from
min_from-IsLeast best [] = (key_lt_irrefl (sort_key best), tt)
min_from-IsLeast best (st ∷ rest) =
    let (first, others) = min_from-IsLeast (if stat_lt st best then st else best) rest in
    let (not_best, not_st) = neither_before best st _ first in (not_best, (not_st, others))

-- `min` returns one of the rows.
pub min_from_All :
    (P : RunnerStat → Type 0) (best : RunnerStat) (rest : List RunnerStat)
    → P best
    → All P rest
    → P (min_from best rest)
unfolding min_from
min_from_All P best [] h hs = h
min_from_All P best (st ∷ rest) h hs = elim (Bool-cases (stat_lt st best)) [
  | inl before ↦ rw before (min_from_All P st rest hs.0 hs.1)
  | inr not_before ↦ rw not_before (min_from_All P best rest h hs.1)
]

pub min_stat_All :
    (P : RunnerStat → Type 0) (sts : List RunnerStat) {best : RunnerStat}
    → min_stat sts ≡ some best
    → All P sts
    → P best
min_stat_All P [] h hs = absurd (cc)
min_stat_All P (st ∷ rest) h hs = subst P (some-injective _ _ h) (min_from_All P st rest hs.0 hs.1)

-- No row of the list comes before the one that `min` returns, by the sort key.
pub min_stat-IsLeast :
    (sts : List RunnerStat) {best : RunnerStat} → min_stat sts ≡ some best → IsLeast best sts
min_stat-IsLeast [] h = tt
min_stat-IsLeast (st ∷ rest) h =
    subst (λ m. IsLeast m (st ∷ rest)) (some-injective _ _ h) (min_from-IsLeast st rest)

-- The count of the least row is least.
pub served-le : (a b : RunnerStat) → stat_lt b a ≡ false → a.runs_served_count ≤ b.runs_served_count
unfolding key_lt sort_key
served-le a b h = ground arith
