-- ===== src/Text/Dict.antt =====
-- Python's `dict` with `str` keys, as its entries in the order of insertion.
use coffee_buddy.Prelude.{◌≡◌, refl, Option, none, some, List, [], ◌∷◌, arith, if◌then◌else◌}
use coffee_buddy.Text.{Text, text_eq, text_eq_iff}

-- The annotation `Mapping[str, V]`
abbrev pub Dict : Type 0 → Type 0
Dict V = List (Text × V)

module _ {V : Type 0} where
  -- `d.get(key)`
  unfoldable pub lookup : Text → Dict V → Option V
  lookup key [] = none
  lookup key ((k, v) ∷ d) = if text_eq k key then some v else lookup key d

  -- `d[key] = value`: a key that is there keeps its place.
  unfoldable pub put : Text → V → Dict V → Dict V
  put key value [] = (key, value) ∷ []
  put key value ((k, v) ∷ d) = if text_eq k key then (k, value) ∷ d else (k, v) ∷ put key value d

  -- `{**d, **e}`: one entry of `e` after another is written into `d`.
  unfoldable pub merge : Dict V → Dict V → Dict V
  merge d [] = d
  merge d ((k, v) ∷ e) = merge (put k v d) e

  -- No key is there twice.
  abbrev pub IsDict : Dict V → Type 0
  IsDict [] = Unit
  IsDict ((k, v) ∷ d) = (lookup k d ≡ none) × IsDict d

-- `d.get(key, default)`
abbrev pub or_else {ℓ} : {V : Type ℓ} → Option V → V → V
or_else none default = default
or_else (some v) default = v

module _ {V : Type 0} where
  pub lookup-put :
      (key k : Text) (v : V) (d : Dict V)
      → lookup key (put k v d) ≡ (if text_eq k key then some v else lookup key d)
  unfolding lookup put
  lookup-put key k v [] = refl
  lookup-put key k v ((j, w) ∷ d) =
      ground (arith, text_eq_iff j k, text_eq_iff j key, text_eq_iff k key, lookup-put key k v d)

  -- In a merge the entries of the second dictionary win.
  pub lookup-merge :
      (key : Text) (d e : Dict V)
      → IsDict e
      → lookup key (merge d e) ≡ elim (lookup key e) [ none ↦ lookup key d | some v ↦ some v ]
  unfolding merge lookup
  lookup-merge key d [] h = refl
  lookup-merge key d ((k, v) ∷ e) h =
      ground
        (arith, h.0, lookup-merge key (put k v d) e h.1, lookup-put key k v d, text_eq_iff k key)
