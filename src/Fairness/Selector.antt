-- ===== src/Fairness/Selector.antt =====
-- The parts of FairnessService that touch no session: the participants without repetition, the
-- dictionary of statistics, the candidates, and `min` by the sort key.
use coffee_buddy.Prelude.{
  ℕ, Bool, true, false, not, ◌&&◌, ◌||◌, Option, none, some, List, [], ◌∷◌, map, ◌==◌, ltb,
  if◌then◌else◌, length, is_some,
}
use coffee_buddy.Prelude.Rows.{select}
use coffee_buddy.Text.{Text, text_eq, text_lt, is_empty}
use coffee_buddy.Uuid.{Ref, uuid, text, to_text}
use coffee_buddy.Schema.{RunnerStat, epoch}

-- `str(identifier)`
abbrev pub ref_text : Ref → Text
ref_text (uuid u) = to_text u
ref_text (text t) = t

unfoldable pub contains : List Text → Text → Bool
contains [] t = false
contains (x ∷ xs) t = text_eq x t || contains xs t

-- The loop of `_unique_ordered`: `seen` is the set of what has been returned.
unfoldable pub unique_from : List Text → List Ref → List Text
unfolding contains
unique_from seen [] = []
unique_from seen (r ∷ rs) =
    let again = unique_from seen rs in
    let fresh = ref_text r ∷ unique_from (ref_text r ∷ seen) rs in
    if contains seen (ref_text r) then again else fresh

abbrev pub unique_ordered : List Ref → List Text
unique_ordered = unique_from []

-- `dict[str, RunnerStat]`, in the order of insertion
abbrev pub Stats : Type 0
Stats = List (Text × RunnerStat)

unfoldable pub get_stat : Text → Stats → Option RunnerStat
get_stat k [] = none
get_stat k ((j, st) ∷ d) = if text_eq j k then some st else get_stat k d

-- `stats[key] = stat`: a key that is there keeps its place.
unfoldable pub put_stat : Text → RunnerStat → Stats → Stats
put_stat k v [] = (k, v) ∷ []
put_stat k v ((j, st) ∷ d) = if text_eq j k then (j, v) ∷ d else (j, st) ∷ put_stat k v d

-- `{str(stat.user_id): stat for stat in rows}`
unfoldable pub by_user : Stats → List RunnerStat → Stats
unfolding put_stat
by_user d [] = d
by_user d (st ∷ rows) = by_user (put_stat (to_text st.user_id) st d) rows

abbrev pub values : Stats → List RunnerStat
values = map (λ e. e.1)

-- `_sort_key`
pub record SortKey : Type 0 where
  pub served : ℕ
  pub last_run : ℕ
  pub created : ℕ
  pub user : Text

abbrev pub or_epoch : Option ℕ → ℕ
or_epoch none = epoch
or_epoch (some t) = t

unfoldable pub sort_key : RunnerStat → SortKey
sort_key st = record {
  served = st.runs_served_count;
  last_run = or_epoch st.last_run_at;
  created = st.created_at;
  user = to_text st.user_id;
}

-- The order of Python's tuples.
unfoldable pub key_lt : SortKey → SortKey → Bool
key_lt a b =
    ltb a.served b.served
    || (a.served == b.served
        && (ltb a.last_run b.last_run
            || (a.last_run == b.last_run
                && (ltb a.created b.created || (a.created == b.created && text_lt a.user b.user)))))

abbrev pub stat_lt : RunnerStat → RunnerStat → Bool
stat_lt a b = key_lt (sort_key a) (sort_key b)

-- `min(stats, key=…)`: the first of the least. `none` is the `ValueError` of an empty list.
unfoldable pub min_from : RunnerStat → List RunnerStat → RunnerStat
min_from best [] = best
min_from best (st ∷ rest) = min_from (if stat_lt st best then st else best) rest

abbrev pub min_stat : List RunnerStat → Option RunnerStat
min_stat [] = none
min_stat (st ∷ rest) = some (min_from st rest)

-- The test under which the last runner is left out.
unfoldable pub excludes : Bool → Option Text → Stats → Bool
excludes allow_immediate_repeat none stats = false
excludes allow_immediate_repeat (some last) stats =
    not allow_immediate_repeat
    && not (is_empty last)
    && is_some (get_stat last stats)
    && ltb 1 (length (values stats))

abbrev pub is_other : Option Text → RunnerStat → Bool
is_other none st = true
is_other (some last) st = not (text_eq (to_text st.user_id) last)

abbrev pub or_all : List RunnerStat → List RunnerStat → List RunnerStat
or_all [] all = all
or_all (st ∷ rest) all = st ∷ rest

unfoldable pub candidates : Bool → Option Text → Stats → List RunnerStat
unfolding excludes
candidates allow_immediate_repeat last stats =
    let all = values stats in
    if excludes allow_immediate_repeat last stats
    then or_all (select (is_other last) all) all
    else or_all all all
