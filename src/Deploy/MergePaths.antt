-- ===== src/Deploy/MergePaths.antt =====
-- `MergeMaps` merges to any depth: what the merged map has at a path of keys.
use mathlib.Core.Path.{subst}
use potter_controller.Prelude.{
  Bool, List, Option, String, [], ap, false, if_lem, none, refl, some, some_inj, sym, true, ◌==◌,
  ◌∙◌, ◌∷◌, ◌≡◌,
}
use potter_controller.Api.{Raw}
use potter_controller.Deploy.MergeMaps.{
  Fields, Unique, Value, end, field, get_field, get_field-merge_maps, merge_maps, merge_value,
  object, scalar,
}

-- The value at a path of keys; a scalar has none below it.
abbrev pub look : Value → List String → Option Value
look v [] = some v
look (scalar s) (k ∷ path) = none
look (object fs) (k ∷ path) = elim (get_field k fs) [ none ↦ none | some v ↦ look v path ]

-- The path leaves the maps at a key that one of them does not have, and meets no scalar before.
abbrev pub silent : Value → List String → Bool
silent v [] = false
silent (scalar s) (k ∷ path) = false
silent (object fs) (k ∷ path) = elim (get_field k fs) [ none ↦ true | some v ↦ silent v path ]

-- In no map, at any depth, a key stands twice.
unfoldable mutual
  pub UniqueValue : Value → Type 0
  UniqueValue (scalar s) = Unit
  UniqueValue (object fs) = UniqueFields fs

  pub UniqueFields : Fields → Type 0
  UniqueFields end = Unit
  UniqueFields (field k v fs) = (get_field k fs ≡ none) × UniqueValue v × UniqueFields fs

UniqueFields-Unique : (fs : Fields) → UniqueFields fs → Unique fs
unfolding UniqueFields
UniqueFields-Unique end h = _
UniqueFields-Unique (field k v fs) (h, _, hs) = (h, UniqueFields-Unique fs hs)

UniqueFields-field :
    (k : String) (fs : Fields) (v : Value)
    → UniqueFields fs
    → get_field k fs ≡ some v
    → UniqueValue v
unfolding UniqueFields get_field
UniqueFields-field k end v h e = cc
UniqueFields-field k (field j u fs) v (_, hu, hs) e =
    if_lem (λ (o : Option Value). o ≡ some v → UniqueValue v) (j == k)
      (λ _ here. subst UniqueValue (some_inj here) hu)
      (λ _ there. UniqueFields-field k fs v hs there) e

silent-look : (v : Value) (path : List String) → silent v path ≡ true → look v path ≡ none
silent-look v [] h = cc
silent-look (scalar s) (k ∷ path) h = refl
silent-look (object fs) (k ∷ path) h = go (λ v. silent-look v path) (get_field k fs) h
  where
    go :
        ((v : Value) → silent v path ≡ true → look v path ≡ none)
        → (o : Option Value)
        → let quiet : Bool = elim o [ none ↦ true | some v ↦ silent v path ] in
          let found : Option Value = elim o [ none ↦ none | some v ↦ look v path ] in
          quiet ≡ true → found ≡ none
    go rec none h' = refl
    go rec (some v) h' = rec v h'

-- What `result` has at a path, of a base value and one that is merged into it.
abbrev pub MergedAt : Option Value → Option Value → List String → Option Value → Type 0
MergedAt base none path result = result ≡ base
MergedAt base (some over) path result =
    (r : Value) × (result ≡ some r)
    × ((s : Raw) → look over path ≡ some (scalar s) → look r path ≡ some (scalar s))
    × (silent over path ≡ true → look r path ≡ (elim base [ none ↦ none | some v ↦ look v path ]))

below_scalar :
    (s : Raw) (over : Value) (path : List String)
    → silent over path ≡ true
    → look (scalar s) path ≡ none
below_scalar s over [] h = cc
below_scalar s over (k ∷ path) h = refl

merge_value-scalar : (base : Option Value) (t : Raw) → merge_value base (scalar t) ≡ scalar t
unfolding merge_value
merge_value-scalar none t = refl
merge_value-scalar (some (scalar s)) t = refl
merge_value-scalar (some (object a)) t = refl

merge_value-MergedAt :
    (base : Option Value) (over : Value) (path : List String)
    → UniqueValue over
    → ((a b : Fields)
        → UniqueFields b
        → ((s : Raw)
            → look (object b) path ≡ some (scalar s)
            → look (object (merge_maps a b)) path ≡ some (scalar s))
          × (silent (object b) path ≡ true
              → look (object (merge_maps a b)) path ≡ look (object a) path))
    → MergedAt base (some over) path (some (merge_value base over))
unfolding merge_value UniqueFields
merge_value-MergedAt (some (object a)) (object b) path u rec =
    (object (merge_maps a b), refl, (rec a b u).0, (rec a b u).1)
merge_value-MergedAt (some (scalar s)) (object b) path u rec = (
  object b,
  refl,
  λ r h. h,
  λ h. silent-look (object b) path h ∙ sym (below_scalar s (object b) path h),
)
merge_value-MergedAt none (object b) path u rec =
    (object b, refl, λ r h. h, λ h. silent-look (object b) path h)
merge_value-MergedAt base (scalar t) path u rec =
    (scalar t, ap some (merge_value-scalar base t), λ r h. h, λ h. never t path h)
  where
    never : {A : Type 0} (t : Raw) (path : List String) → silent (scalar t) path ≡ true → A
    never t [] h = cc
    never t (k ∷ path) h = cc

-- At every path of keys, to any depth: a scalar of the second map is the one of the merged map; and
-- where the second map leaves the path at a missing key, the merged map has what the first one has. In no
-- map of the second one a key stands twice.
pub merge_maps_at_paths :
    (path : List String) (a b : Fields)
    → UniqueFields b
    → ((s : Raw)
        → look (object b) path ≡ some (scalar s)
        → look (object (merge_maps a b)) path ≡ some (scalar s))
      × (silent (object b) path ≡ true → look (object (merge_maps a b)) path ≡ look (object a) path)
merge_maps_at_paths [] a b u = (λ s h. cc, λ h. cc)
merge_maps_at_paths (k ∷ path) a b u =
    go (merge_maps_at_paths path) (get_field k a) (get_field k b) (get_field k (merge_maps a b))
      refl (get_field-merge_maps a b k (UniqueFields-Unique b u))
  where
    go :
        ((a' b' : Fields)
          → UniqueFields b'
          → ((s : Raw)
              → look (object b') path ≡ some (scalar s)
              → look (object (merge_maps a' b')) path ≡ some (scalar s))
            × (silent (object b') path ≡ true
                → look (object (merge_maps a' b')) path ≡ look (object a') path))
        → (base over result : Option Value) → get_field k b ≡ over
        → result ≡ (elim over [ none ↦ base | some v ↦ some (merge_value base v) ])
        → let at : Option Value → Option Value =
            λ o. elim o [ none ↦ none | some v ↦ look v path ] in
          let quiet : Bool = elim over [ none ↦ true | some v ↦ silent v path ] in
          ((s : Raw) → at over ≡ some (scalar s) → at result ≡ some (scalar s))
          × (quiet ≡ true → at result ≡ at base)
    go rec base none result e m = (λ s h. cc, λ h. ap at_path m)
      where
        at_path : Option Value → Option Value
        at_path o = elim o [ none ↦ none | some v ↦ look v path ]
    go rec base (some over) result e m =
        let (r, same, first, second_part) =
          merge_value-MergedAt base over path (UniqueFields-field k b over u e) rec in
        (λ s h. ap at_path (m ∙ same) ∙ first s h, λ h. ap at_path (m ∙ same) ∙ second_part h)
      where
        at_path : Option Value → Option Value
        at_path o = elim o [ none ↦ none | some v ↦ look v path ]
