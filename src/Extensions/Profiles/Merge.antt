-- ===== src/Extensions/Profiles/Merge.antt =====
-- How the profiles of a configuration are merged into the built-in ones.
use text.Mathlib.Text.{◌==◌ as str_eq}
use text.Mathlib.TextEquality.{eq_iff}
use text.Mathlib.TextPositions.{eq_refl}
use aurora_api_gateway.Prelude.{
  String, Option, none, some, List, [], ◌∷◌, ◌≡◌, refl, ◌∙◌, inl, inr, arith, Bool-cases,
  if◌then◌else◌, find,
}
use aurora_api_gateway.Prelude.Text.{is_empty, trim}
use aurora_api_gateway.Prelude.Json.{Json, Fields, end, field, get}
use aurora_api_gateway.Extensions.Catalog.{ExtensionProfileOption}
use aurora_api_gateway.Extensions.Profiles.{
  members, custom_option, put_profile, put_member, merge_profiles,
}

-- `profiles.find((p) => p.id === id)`
abbrev pub find_profile : String → List ExtensionProfileOption → Option ExtensionProfileOption
find_profile k ps = find (λ p. str_eq p.id k) ps

-- No two members of the object have one key, as in every object.
abbrev pub HasDistinctKeys : Fields → Type 0
HasDistinctKeys end = Unit
HasDistinctKeys (field k v o) = (get k o ≡ none) × HasDistinctKeys o

-- The option for an id and a member of that key: none for a blank id or a value that is no object.
unfoldable pub option_of : String → Option Fields → Option ExtensionProfileOption
option_of id none = none
option_of id (some o) = if is_empty (trim id) then none else some (custom_option id o)

unfoldable pub custom_profile : String → Option Json → Option ExtensionProfileOption
unfolding option_of
custom_profile id none = none
custom_profile id (some v) = option_of id (members v)

-- The first value that is there.
abbrev pub or_else :
    Option ExtensionProfileOption → Option ExtensionProfileOption → Option ExtensionProfileOption
or_else none d = d
or_else (some c) d = some c

find-put_profile :
    (k : String) (o : ExtensionProfileOption) (ps : List ExtensionProfileOption)
    → find_profile k (put_profile o ps) ≡ (if str_eq o.id k then some o else find_profile k ps)
unfolding put_profile
find-put_profile k o [] = refl
find-put_profile k o (p ∷ ps) =
    ground (arith, eq_iff o.id k, eq_iff p.id o.id, eq_iff p.id k, find-put_profile k o ps)

id-custom_option : (id : String) (o : Fields) → (custom_option id o).id ≡ id
unfolding custom_option
id-custom_option id o = refl

find-put_member :
    (k id : String) (m : Option Fields) (ps : List ExtensionProfileOption)
    → find_profile k (put_member id m ps)
      ≡ (if str_eq id k then or_else (option_of id m) (find_profile k ps) else find_profile k ps)
unfolding put_member option_of
find-put_member k id none ps = elim (Bool-cases (str_eq id k)) [ inl e ↦ rw e | inr e ↦ rw e ]
find-put_member k id (some o) ps = elim (Bool-cases (is_empty (trim id))) [
  | inl blank ↦ elim (Bool-cases (str_eq id k)) [ inl e ↦ rw (blank, e) | inr e ↦ rw (blank, e) ]
  | inr given ↦ rw given (
      find-put_profile k (custom_option id o) ps ∙ elim (Bool-cases (str_eq id k)) [
        | inl e ↦ rw (id-custom_option id o, e) refl
        | inr e ↦ rw (id-custom_option id o, e) refl
      ])
]

-- In the merged list an id is found with the option of the configuration where that has one, and
-- with the built-in profile otherwise.
pub find-merge_profiles :
    (k : String) (ps : List ExtensionProfileOption) (o : Fields)
    → HasDistinctKeys o
    → find_profile k (merge_profiles ps o)
      ≡ or_else (custom_profile k (get k o)) (find_profile k ps)
unfolding merge_profiles get custom_profile
find-merge_profiles k ps end h = refl
find-merge_profiles k ps (field id v o) (fresh, h) =
    find-merge_profiles k (put_member id (members v) ps) o h
    ∙ rw (find-put_member k id (members v) ps) (elim (Bool-cases (str_eq id k)) [
      | inl e ↦ let same : id ≡ k = (eq_iff id k).0 e in rw (← same) (rw (fresh, eq_refl id) refl)
      | inr e ↦ rw e refl
    ])

-- No two options of the list have one id.
abbrev pub HasDistinctIds : List ExtensionProfileOption → Type 0
HasDistinctIds [] = Unit
HasDistinctIds (p ∷ ps) = (find_profile p.id ps ≡ none) × HasDistinctIds ps

put_profile-HasDistinctIds :
    (o : ExtensionProfileOption) (ps : List ExtensionProfileOption)
    → HasDistinctIds ps
    → HasDistinctIds (put_profile o ps)
unfolding put_profile
put_profile-HasDistinctIds o [] h = (refl, tt)
put_profile-HasDistinctIds o (p ∷ ps) (fresh, h) = elim (Bool-cases (str_eq p.id o.id)) [
  | inl e ↦ let same : p.id ≡ o.id = (eq_iff p.id o.id).0 e in rw e (rw same at fresh, h)
  | inr e ↦ rw e (
    find-put_profile p.id o ps ∙ ground (arith, eq_iff o.id p.id, eq_iff p.id o.id),
    put_profile-HasDistinctIds o ps h,
  )
]

put_member-HasDistinctIds :
    (id : String) (m : Option Fields) (ps : List ExtensionProfileOption)
    → HasDistinctIds ps
    → HasDistinctIds (put_member id m ps)
unfolding put_member
put_member-HasDistinctIds id none ps h = h
put_member-HasDistinctIds id (some o) ps h = elim (Bool-cases (is_empty (trim id))) [
  | inl blank ↦ rw blank h
  | inr given ↦ rw given (put_profile-HasDistinctIds (custom_option id o) ps h)
]

-- Merging keeps the ids distinct, so that a route's choice of a profile is unambiguous.
pub merge_profiles-HasDistinctIds :
    (ps : List ExtensionProfileOption) (o : Fields)
    → HasDistinctIds ps
    → HasDistinctIds (merge_profiles ps o)
unfolding merge_profiles
merge_profiles-HasDistinctIds ps end h = h
merge_profiles-HasDistinctIds ps (field id v o) h =
    merge_profiles-HasDistinctIds (put_member id (members v) ps) o
      (put_member-HasDistinctIds id (members v) ps h)
