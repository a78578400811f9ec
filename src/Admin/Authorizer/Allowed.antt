-- ===== src/Admin/Authorizer/Allowed.antt =====
-- Whom SlackAdminAuthorizer lets through.
use coffee_buddy.Prelude.{
  ◌≡◌, ◌⊎◌, ◌↔◌, inl, inr, refl, ap, sym, ◌∙◌, Bool, true, false, List, [], ◌∷◌, map, if◌then◌else◌,
  arith, Bool-cases,
}
use coffee_buddy.Text.{Text, codes, text_eq, text_eq_iff, strip, is_empty}
use coffee_buddy.Text.Strip.{strip_idem}
use coffee_buddy.Text.Dict.{Dict, lookup, or_else}
use coffee_buddy.Admin.Models.{AdminActor}
use coffee_buddy.Admin.Authorizer.{elem, stripped, split_at, has_role, is_authorized, from_env}

-- The text is one of these.
abbrev pub In : Text → List Text → Type 0
In t [] = ⊥
In t (x ∷ xs) = (x ≡ t) ⊎ In t xs

elem-In : (t : Text) (xs : List Text) → elem t xs ≡ true → In t xs
unfolding elem
elem-In t [] h = absurd (cc)
elem-In t (x ∷ xs) h = elim (Bool-cases (text_eq x t)) [
  | inl e ↦ inl ((text_eq_iff x t).0 e)
  | inr e ↦ inr (elem-In t xs (ground arith))
]

In-elem : (t : Text) (xs : List Text) → In t xs → elem t xs ≡ true
unfolding elem
In-elem t [] h = absurd h
In-elem t (x ∷ xs) (inl e) = rw ((text_eq_iff x t).1 e) refl
In-elem t (x ∷ xs) (inr h) = let m = In-elem t xs h in ground arith

-- It is what is left of one of these without the blanks round it, and is not empty.
abbrev pub InTrimmed : Text → List Text → Type 0
InTrimmed t xs = (x : Text) × In x xs × (strip x ≡ t) × (is_empty t ≡ false)

stripped-InTrimmed : (t : Text) (xs : List Text) → In t (stripped xs) → InTrimmed t xs
unfolding stripped
stripped-InTrimmed t [] h = absurd h
stripped-InTrimmed t (x ∷ xs) h =
    by_first (is_empty (strip x)) refl h
      λ k. let (y, m, e, f) = stripped-InTrimmed t xs k in (y, inr m, e, f)
  where
    by_first :
        (b : Bool)
        → is_empty (strip x) ≡ b
        → In t (if b then stripped xs else strip x ∷ stripped xs)
        → (In t (stripped xs) → InTrimmed t (x ∷ xs))
        → InTrimmed t (x ∷ xs)
    by_first true e k later = later k
    by_first false e (inl same) later = (x, inl refl, same, ap is_empty (sym same) ∙ e)
    by_first false e (inr k) later = later k

InTrimmed-stripped : (t : Text) (xs : List Text) → InTrimmed t xs → In t (stripped xs)
unfolding stripped
InTrimmed-stripped t [] (y, m, e, f) = absurd m
InTrimmed-stripped t (x ∷ xs) (y, inl same, e, f) =
    rw (ap is_empty (ap strip same ∙ e) ∙ f) (inl (ap strip same ∙ e))
InTrimmed-stripped t (x ∷ xs) (y, inr m, e, f) =
    by_first (is_empty (strip x)) (InTrimmed-stripped t xs (y, m, e, f))
  where
    by_first :
        (b : Bool) → In t (stripped xs) → In t (if b then stripped xs else strip x ∷ stripped xs)
    by_first true k = k
    by_first false k = inr k

-- Trimming twice is trimming once.
trimmed_twice : (t : Text) (xs : List Text) → In t (stripped (stripped xs)) ↔ InTrimmed t xs
trimmed_twice t xs = (
  λ h.
      let (y, m, e, f) = stripped-InTrimmed t (stripped xs) h in
      let (x, n, g, k) = stripped-InTrimmed y xs m in
      (x, n, sym (strip_idem x) ∙ (ap strip g ∙ e), f),
  λ (x, m, e, f).
      InTrimmed-stripped t (stripped xs)
        (t, InTrimmed-stripped t xs (x, m, e, f), sym (ap strip e) ∙ (strip_idem x ∙ e), f),
)

module _ (lower : Text → Text) where
  -- One of the roles is one of the list, in whatever case they are written.
  abbrev pub HasRole : (allowlist roles : List Text) → Type 0
  HasRole allowlist roles = (r : Text) × In r roles × In (lower r) allowlist

  has_role-HasRole :
      (allowlist roles : List Text)
      → has_role lower allowlist roles ≡ true
      → HasRole allowlist roles
  unfolding has_role
  has_role-HasRole allowlist [] h = absurd (cc)
  has_role-HasRole allowlist (r ∷ rs) h = elim (Bool-cases (elem (lower r) allowlist)) [
    | inl e ↦ (r, inl refl, elem-In (lower r) allowlist e)
    | inr e ↦ let (q, m, k) = has_role-HasRole allowlist rs (ground arith) in (q, inr m, k)
  ]

  HasRole-has_role :
      (allowlist roles : List Text)
      → HasRole allowlist roles
      → has_role lower allowlist roles ≡ true
  unfolding has_role
  HasRole-has_role allowlist [] (q, m, k) = absurd m
  HasRole-has_role allowlist (r ∷ rs) (q, inl same, k) =
      rw (ap (λ t. elem (lower t) allowlist) same ∙ In-elem (lower q) allowlist k) refl
  HasRole-has_role allowlist (r ∷ rs) (q, inr m, k) =
      let later = HasRole-has_role allowlist rs (q, m, k) in ground arith

  -- The identifiers that the environment lists.
  abbrev pub listed_ids : Dict Text → List Text
  listed_ids environ =
      split_at b',' (or_else (lookup (codes "COFFEEBUDDY_ADMIN_USER_IDS") environ) [])

  -- The authorizer that is built from the environment lets exactly those through whose identifier is,
  -- without the blanks round it, in the comma-separated list of the environment, and is not empty,
  -- and those who have the role of an admin or an owner, in whatever case it is written.
  pub is_authorized-from_env :
      (environ : Dict Text) (actor : AdminActor)
      → (is_authorized lower (from_env lower environ) actor ≡ true) ↔ (
          InTrimmed actor.slack_user_id (listed_ids environ)
          ⊎ HasRole (map lower (codes "admin" ∷ codes "owner" ∷ [])) actor.slack_roles)
  unfolding is_authorized from_env
  is_authorized-from_env environ actor = (forth, back)
    where
      ids : List Text
      ids = stripped (stripped (listed_ids environ))

      roles : List Text
      roles = map lower (codes "admin" ∷ codes "owner" ∷ [])

      forth :
          (if elem actor.slack_user_id ids then true else has_role lower roles actor.slack_roles)
            ≡ true
          → InTrimmed actor.slack_user_id (listed_ids environ) ⊎ HasRole roles actor.slack_roles
      forth h = elim (Bool-cases (elem actor.slack_user_id ids)) [
        | inl e ↦ inl (
            (trimmed_twice actor.slack_user_id (listed_ids environ)).0
              (elem-In actor.slack_user_id ids e))
        | inr e ↦ inr (has_role-HasRole roles actor.slack_roles (ground arith))
      ]

      back :
          InTrimmed actor.slack_user_id (listed_ids environ) ⊎ HasRole roles actor.slack_roles
          → (if elem actor.slack_user_id ids then true else has_role lower roles actor.slack_roles)
            ≡ true
      back (inl h) =
          rw
            (In-elem actor.slack_user_id ids
              ((trimmed_twice actor.slack_user_id (listed_ids environ)).1 h))
            refl
      back (inr h) = let r = HasRole-has_role roles actor.slack_roles h in ground arith
