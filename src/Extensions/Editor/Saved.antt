-- ===== src/Extensions/Editor/Saved.antt =====
-- A profile that is saved in the editor is one of the profiles that the routes can choose.
use Prim.Native.Char.{code}
use text.Mathlib.Text.{◌==◌ as str_eq}
use text.Mathlib.TextEquality.{eq_iff}
use mathlib.Core.Option.{some-injective}
use aurora_api_gateway.Prelude.{
  ℕ, String, true, false, some, List, [], ◌∷◌, ◌≡◌, refl, sym, ap, ◌∙◌, subst, arith, Bool-cases,
  inl, inr,
}
use aurora_api_gateway.Prelude.Text.{is_empty, trim, or_text, to_lower_case, is_space}
use aurora_api_gateway.Prelude.Text.Laws.{
  HasNoSpace, trim_of_HasNoSpace, trim_idem, trim-or_text, is_empty-or_text,
}
use aurora_api_gateway.Prelude.Json.{
  Json, str, obj, arr, Fields, end, field, get, put, JsonText, items_of,
}
use aurora_api_gateway.Prelude.Json.Laws.{get-put, get-put_self, get-remove}
use aurora_api_gateway.Extensions.Catalog.{ExtensionProfileOption}
use aurora_api_gateway.Extensions.Profiles.{
  absent, members, custom_option, custom_label, resolve_extension_profiles,
}
use aurora_api_gateway.Extensions.Profiles.Merge.{
  find_profile, HasDistinctKeys, custom_profile, option_of, or_else,
}
use aurora_api_gateway.Extensions.Profiles.Keys.{find-resolve_extension_profiles}
use aurora_api_gateway.Extensions.Editor.{
  ConfigEditor, spread, put_rules, with_profiles_member, handle_update_profiles, sync_to_json,
  config_arg,
}
use aurora_api_gateway.Extensions.Editor.Manager.{
  ProfileForm, is_id_code, clean_chars, clean_id, profile_entry, custom_profiles_map,
  handle_save_profile,
}

space_is_no_id : (c : ℕ) → is_id_code c ≡ true → is_space c ≡ false
unfolding is_id_code is_space
space_is_no_id c h = ground arith

clean_chars-HasNoSpace : (s : String) → HasNoSpace (clean_chars s)
unfolding clean_chars
clean_chars-HasNoSpace String.[] = tt
clean_chars-HasNoSpace (String.◌∷◌ c s) = elim (Bool-cases (is_id_code (code c))) [
  | inl e ↦ rw e (space_is_no_id (code c) e, clean_chars-HasNoSpace s)
  | inr e ↦ rw e (unfold is_space in refl, clean_chars-HasNoSpace s)
]

trim-clean_id : (id : String) → trim (clean_id id) ≡ clean_id id
unfolding clean_id
trim-clean_id id = trim_of_HasNoSpace _ (clean_chars-HasNoSpace (to_lower_case (trim id)))

put-HasDistinctKeys :
    (k : String) (v : Json) (o : Fields) → HasDistinctKeys o → HasDistinctKeys (put k v o)
unfolding put
put-HasDistinctKeys k v end h = (unfold get in refl, tt)
put-HasDistinctKeys k v (field j w o) (fresh, h) = elim (Bool-cases (str_eq j k)) [
  | inl e ↦ let same : j ≡ k = (eq_iff j k).0 e in rw e (ap (λ i. get i o) (sym same) ∙ fresh, h)
  | inr e ↦
      rw e (get-put k j v o ∙ ground (arith, eq_iff k j, eq_iff j k), put-HasDistinctKeys k v o h)
]

-- The members that are handed to the editor end up in the configuration.
get-put_rules_profiles :
    (rs : List Json) (o : Fields) → get "profiles" (put_rules rs o) ≡ get "profiles" o
unfolding put_rules
get-put_rules_profiles [] o = get-remove "rules" "profiles" o
get-put_rules_profiles (r ∷ rs) o = get-put "rules" "profiles" (arr (items_of (r ∷ rs))) o

get-with_profiles_member :
    (json : JsonText) (k : String) (v : Json) (q o : Fields)
    → get "profiles" (with_profiles_member json (put k v q) o) ≡ some (obj (put k v q))
unfolding with_profiles_member put
get-with_profiles_member json k v end o = get-put_self "profiles" (obj (field k v end)) o
get-with_profiles_member json k v (field j w q) o = elim (Bool-cases (str_eq j k)) [
  | inl e ↦ rw e (get-put_self "profiles" (obj (field k v q)) o)
  | inr e ↦ rw e (get-put_self "profiles" (obj (field j w (put k v q))) o)
]

label-profile_entry :
    (id : String) (f : ProfileForm)
    → get "label" (profile_entry id f) ≡ some (str (or_text (trim f.prof_label) id))
unfolding profile_entry
label-profile_entry id f = elim (Bool-cases (is_empty (trim f.prof_summary))) [
  | inl e ↦ rw e (get-put_self "label" (str (or_text (trim f.prof_label) id)) f.prof_params)
  | inr e ↦ rw e (
      get-put "summary" "label" (str (trim f.prof_summary)) _
      ∙ get-put_self "label" (str (or_text (trim f.prof_label) id)) f.prof_params)
]

-- The profile that the saved form stands for.
abbrev pub saved_option : ProfileForm → ExtensionProfileOption
saved_option f = custom_option (clean_id f.prof_id) (profile_entry (clean_id f.prof_id) f)

label-saved_option :
    (f : ProfileForm)
    → is_empty (clean_id f.prof_id) ≡ false
    → (saved_option f).label ≡ or_text (trim f.prof_label) (clean_id f.prof_id)
unfolding custom_option custom_label
label-saved_option f given =
    let clean : trim (or_text (trim f.prof_label) (clean_id f.prof_id))
        ≡ or_text (trim f.prof_label) (clean_id f.prof_id) =
      trim-or_text (trim f.prof_label) (clean_id f.prof_id) (trim_idem f.prof_label)
        (trim-clean_id f.prof_id) in
    let full : is_empty (or_text (trim f.prof_label) (clean_id f.prof_id)) ≡ false =
      is_empty-or_text (trim f.prof_label) (clean_id f.prof_id) given in
    rw (label-profile_entry (clean_id f.prof_id) f) (rw clean (rw full refl))

custom_profile-saved :
    (f : ProfileForm)
    → is_empty (clean_id f.prof_id) ≡ false
    → custom_profile (clean_id f.prof_id) (some (obj (profile_entry (clean_id f.prof_id) f)))
      ≡ some (saved_option f)
unfolding custom_profile option_of members
custom_profile-saved f given = rw (trim-clean_id f.prof_id) (rw given refl)

resolved :
    (json : JsonText) (raw k : String) (v : Json) (q : Fields) (s : ConfigEditor)
    → HasDistinctKeys q
    → find_profile k (
        resolve_extension_profiles json raw
          (config_arg (handle_update_profiles json (put k v q) s).parsed_config))
      ≡ or_else
          (custom_profile k (some v))
          (find_profile k (resolve_extension_profiles json raw absent))
unfolding handle_update_profiles sync_to_json
resolved json raw k v q s distinct =
    let config : Fields = with_profiles_member json (put k v q) (spread s.parsed_config) in
    find-resolve_extension_profiles json raw k (put_rules s.rules config) (put k v q)
      (get-put_rules_profiles s.rules config
        ∙ get-with_profiles_member json k v q (spread s.parsed_config))
      (put-HasDistinctKeys k v q distinct)
    ∙ ap
        (λ m.
          or_else (custom_profile k m)
            (find_profile k (resolve_extension_profiles json raw absent)))
        (get-put_self k v q)

-- A profile that is saved under an id that is not blank is found under its cleaned id among the profiles
-- of the extension, with the label that was given, or its id. The profiles of the configuration have
-- distinct keys.
pub find_profile-handle_save_profile :
    (json : JsonText) (raw : String) (s : ConfigEditor) (f : ProfileForm) (next : Fields)
    → HasDistinctKeys (custom_profiles_map s.parsed_config)
    → is_empty (clean_id f.prof_id) ≡ false
    → (handle_save_profile s.parsed_config f).1 ≡ some next
    → (find_profile (clean_id f.prof_id) (
          resolve_extension_profiles json raw
            (config_arg (handle_update_profiles json next s).parsed_config))
        ≡ some (saved_option f))
      × ((saved_option f).label ≡ or_text (trim f.prof_label) (clean_id f.prof_id))
unfolding handle_save_profile
find_profile-handle_save_profile json raw s f next distinct given saved =
    let entry : Json = obj (profile_entry (clean_id f.prof_id) f) in
    let made : some (put (clean_id f.prof_id) entry (custom_profiles_map s.parsed_config))
        ≡ some next =
      rw given at saved in
    (
      subst
          (λ q.
            find_profile (clean_id f.prof_id) (
              resolve_extension_profiles json raw
                (config_arg (handle_update_profiles json q s).parsed_config))
            ≡ some (saved_option f))
          (some-injective _ next made)
          (resolved json raw (clean_id f.prof_id) entry (custom_profiles_map s.parsed_config) s
              distinct
            ∙ ap
                (λ c.
                  or_else c (
                    find_profile (clean_id f.prof_id) (resolve_extension_profiles json raw absent)))
                (custom_profile-saved f given)),
      label-saved_option f given,
    )
