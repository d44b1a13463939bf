-- ===== src/Extensions/Profiles/Order.antt =====
-- The order of the profiles when those of a configuration are merged into the built-in ones.
use mathlib.Core.List.{append-nil, append_assoc}
use text.Mathlib.Text.{◌==◌ as str_eq}
use text.Mathlib.TextEquality.{eq_iff}
use aurora_api_gateway.Prelude.{
  String, Bool, false, ◌&&◌, ◌||◌, not, Option, none, some, List, [], ◌∷◌, ◌++◌, map, any, ◌≡◌,
  refl, sym, ap, ◌∙◌, inl, inr, arith, Bool-cases, if◌then◌else◌,
}
use aurora_api_gateway.Prelude.Text.{is_empty, trim}
use aurora_api_gateway.Prelude.Json.{Fields, end, field, get}
use aurora_api_gateway.Extensions.Catalog.{ExtensionProfileOption}
use aurora_api_gateway.Extensions.Profiles.{
  members, custom_option, put_profile, put_member, merge_profiles,
}
use aurora_api_gateway.Extensions.Profiles.Merge.{HasDistinctKeys}

abbrev pub ids : List ExtensionProfileOption → List String
ids = map (λ p. p.id)

abbrev pub has_profile : String → List ExtensionProfileOption → Bool
has_profile k = any (λ p. str_eq p.id k)

-- A member of the configuration is a profile if its value is an object and its key is not blank.
unfoldable pub names_profile : String → Option Fields → Bool
names_profile k none = false
names_profile k (some o) = not (is_empty (trim k))

-- The ids of a configuration's profiles that the list does not have, in the configuration's order.
unfoldable pub new_ids : List ExtensionProfileOption → Fields → List String
unfolding names_profile
new_ids ps end = []
new_ids ps (field k v o) =
    if names_profile k (members v) && not (has_profile k ps) then k ∷ new_ids ps o else new_ids ps o

ids-put_profile :
    (o : ExtensionProfileOption) (ps : List ExtensionProfileOption)
    → ids (put_profile o ps) ≡ (if has_profile o.id ps then ids ps else ids ps ++ o.id ∷ [])
unfolding put_profile
ids-put_profile o [] = refl
ids-put_profile o (p ∷ ps) = elim (Bool-cases (str_eq p.id o.id)) [
  | inl e ↦ rw e (ap (λ i. i ∷ ids ps) (sym ((eq_iff p.id o.id).0 e)))
  | inr e ↦
      rw (e, ids-put_profile o ps)
        (elim (Bool-cases (has_profile o.id ps)) [
          | inl there ↦ rw there refl
          | inr new ↦ rw new refl
        ])
]

ids-put_member :
    (k : String) (m : Option Fields) (ps : List ExtensionProfileOption)
    → ids (put_member k m ps)
      ≡ ids ps ++ (if names_profile k m && not (has_profile k ps) then k ∷ [] else [])
unfolding put_member custom_option names_profile
ids-put_member k none ps = sym (append-nil (ids ps))
ids-put_member k (some o) ps = elim (Bool-cases (is_empty (trim k))) [
  | inl blank ↦ rw blank (sym (append-nil (ids ps)))
  | inr given ↦
      rw (given, ids-put_profile (custom_option k o) ps)
        (elim (Bool-cases (has_profile k ps)) [
          | inl there ↦ rw there (sym (append-nil (ids ps)))
          | inr new ↦ rw new refl
        ])
]

has_profile-put_profile :
    (k : String) (o : ExtensionProfileOption) (ps : List ExtensionProfileOption)
    → has_profile k (put_profile o ps) ≡ (str_eq o.id k || has_profile k ps)
unfolding put_profile
has_profile-put_profile k o [] = refl
has_profile-put_profile k o (p ∷ ps) =
    ground (arith, eq_iff p.id o.id, eq_iff o.id k, eq_iff p.id k, has_profile-put_profile k o ps)

-- Another key is in the list as before.
has_profile-put_member :
    (i k : String) (m : Option Fields) (ps : List ExtensionProfileOption)
    → str_eq k i ≡ false
    → has_profile i (put_member k m ps) ≡ has_profile i ps
unfolding put_member custom_option
has_profile-put_member i k none ps other = refl
has_profile-put_member i k (some o) ps other = elim (Bool-cases (is_empty (trim k))) [
  | inl blank ↦ rw blank refl
  | inr given ↦ rw given (has_profile-put_profile i (custom_option k o) ps ∙ rw other refl)
]

new_ids-put_member :
    (k : String) (m : Option Fields) (ps : List ExtensionProfileOption) (o : Fields)
    → get k o ≡ none
    → new_ids (put_member k m ps) o ≡ new_ids ps o
unfolding new_ids get
new_ids-put_member k m ps end absent = refl
new_ids-put_member k m ps (field i v o) absent = elim (Bool-cases (str_eq i k)) [
  | inl e ↦ let clash : some v ≡ none = rw e at absent in cc
  | inr e ↦
      let other : str_eq k i ≡ false = ground (arith, eq_iff k i, eq_iff i k) in
      let later : get k o ≡ none = rw e at absent in
      rw (has_profile-put_member i k m ps other, new_ids-put_member k m ps o later) refl
]

-- The built-in profiles keep their places, whatever takes them over, and behind them come the ids
-- that only the configuration has, in its order; an id is left out where it is blank or its value is
-- no object. No two members of the configuration have one key.
pub ids-merge_profiles :
    (ps : List ExtensionProfileOption) (o : Fields)
    → HasDistinctKeys o
    → ids (merge_profiles ps o) ≡ ids ps ++ new_ids ps o
unfolding merge_profiles new_ids
ids-merge_profiles ps end h = sym (append-nil (ids ps))
ids-merge_profiles ps (field k v o) (fresh, h) =
    ids-merge_profiles (put_member k (members v) ps) o h
    ∙ rw (ids-put_member k (members v) ps, new_ids-put_member k (members v) ps o fresh)
        (elim (Bool-cases (names_profile k (members v) && not (has_profile k ps))) [
          | inl e ↦ rw e (append_assoc (ids ps) (k ∷ []) (new_ids ps o))
          | inr e ↦ rw e (ap (λ xs. xs ++ new_ids ps o) (append-nil (ids ps)))
        ])
