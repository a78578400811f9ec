-- ===== src/Admin/Authorizer.antt =====
-- api/admin/authorizer.py. Sets are lists here, of which only membership is read; `lower` is
-- `str.lower`.
pub mod Allowed
use coffee_buddy.Prelude.{
  ℕ, Bool, true, false, ◌||◌, Option, none, some, List, [], ◌∷◌, ◌==◌, map, if◌then◌else◌,
}
use coffee_buddy.Text.{Text, codes, text_eq, strip, is_empty}
use coffee_buddy.Text.Dict.{Dict, lookup, or_else}
use coffee_buddy.Admin.Models.{AdminActor}

pub record SlackAdminAuthorizer : Type 0 where
  pub allowed_user_ids : List Text
  pub role_allowlist : List Text

-- `t in texts`
unfoldable pub elem : Text → List Text → Bool
elem t [] = false
elem t (x ∷ xs) = text_eq x t || elem t xs

-- `{x.strip() for x in texts if x and x.strip()}`, as also a list
unfoldable pub stripped : List Text → List Text
stripped [] = []
stripped (x ∷ xs) = let rest = stripped xs in if is_empty (strip x) then rest else strip x ∷ rest

-- `text.split(separator)`
abbrev pub with_first : ℕ → List Text → List Text
with_first c [] = (c ∷ []) ∷ []
with_first c (p ∷ ps) = (c ∷ p) ∷ ps

unfoldable pub split_at : (separator : ℕ) → Text → List Text
split_at separator [] = [] ∷ []
split_at separator (c ∷ cs) =
    let rest = split_at separator cs in if c == separator then [] ∷ rest else with_first c rest

-- `role_allowlist or ("admin", "owner")`
abbrev pub roles_or : Option (List Text) → List Text
roles_or none = codes "admin" ∷ codes "owner" ∷ []
roles_or (some []) = codes "admin" ∷ codes "owner" ∷ []
roles_or (some (r ∷ rs)) = r ∷ rs

module _ (lower : Text → Text) where
  -- The constructor
  abbrev pub new_authorizer :
      (allowed_user_ids role_allowlist : Option (List Text)) → SlackAdminAuthorizer
  new_authorizer allowed_user_ids role_allowlist = record {
    allowed_user_ids = stripped (or_else allowed_user_ids []);
    role_allowlist = map lower (roles_or role_allowlist);
  }

  unfoldable pub from_env : Dict Text → SlackAdminAuthorizer
  from_env environ =
      new_authorizer
        (some (
          stripped
            (split_at b',' (or_else (lookup (codes "COFFEEBUDDY_ADMIN_USER_IDS") environ) []))))
        none

  -- `any(role.lower() in self._role_allowlist for role in actor.slack_roles)`
  unfoldable pub has_role : List Text → (roles : List Text) → Bool
  has_role allowlist [] = false
  has_role allowlist (r ∷ rs) = elem (lower r) allowlist || has_role allowlist rs

  unfoldable pub is_authorized : SlackAdminAuthorizer → AdminActor → Bool
  is_authorized a actor =
      if elem actor.slack_user_id a.allowed_user_ids
      then true
      else has_role a.role_allowlist actor.slack_roles
