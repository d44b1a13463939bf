-- ===== src/Extensions/Profiles/Keys.antt =====
-- The keys of extensions, and the profiles that an extension has in the end.
use Prim.Native.String
use text.Mathlib.Text.{◌==◌ as str_eq}
use text.Mathlib.TextLemmas.{nil-append, cons-append}
use aurora_api_gateway.Prelude.{
  String, Bool, Option, none, some, List, [], ◌∷◌, ◌≡◌, refl, ap, ◌∙◌, inl, inr, arith, Bool-cases,
  find, All,
}
use aurora_api_gateway.Prelude.Text.{trim}
use aurora_api_gateway.Prelude.Text.Laws.{trim_end_of_trimmed}
use aurora_api_gateway.Prelude.Json.{obj, Fields, get, JsonText}
use aurora_api_gateway.Extensions.Catalog.{
  ExtensionProfileOption, DataplaneExtensionMeta, dataplane_extension_catalog,
}
use aurora_api_gateway.Extensions.Profiles.{
  ConfigArg, absent, object, strip_prefix, normalize_extension_key, find_dataplane_extension_meta,
  builtins, config_profiles, parsed_config, with_profiles, member_profiles, members,
  resolve_extension_profiles,
}
use aurora_api_gateway.Extensions.Profiles.Merge.{
  find_profile, HasDistinctKeys, HasDistinctIds, custom_profile, or_else, find-merge_profiles,
  merge_profiles-HasDistinctIds,
}

-- The built-in profiles of each extension have distinct ids.
catalog-HasDistinctIds : All (λ m. HasDistinctIds m.default_profiles) dataplane_extension_catalog
catalog-HasDistinctIds = ground arith

found-HasDistinctIds :
    (p : DataplaneExtensionMeta → Bool) (ms : List DataplaneExtensionMeta)
    → All (λ m. HasDistinctIds m.default_profiles) ms
    → HasDistinctIds (builtins (find p ms))
unfolding builtins
found-HasDistinctIds p [] h = (refl, tt)
found-HasDistinctIds p (m ∷ ms) (here, h) = elim (Bool-cases (p m)) [
  | inl hit ↦ rw hit here
  | inr miss ↦ rw miss (found-HasDistinctIds p ms h)
]

with_profiles-HasDistinctIds :
    (ps : List ExtensionProfileOption) (o : Option Fields)
    → HasDistinctIds ps
    → HasDistinctIds (with_profiles ps o)
unfolding with_profiles
with_profiles-HasDistinctIds ps none h = h
with_profiles-HasDistinctIds ps (some o) h = merge_profiles-HasDistinctIds ps o h

-- For every key and every configuration the profiles of an extension have distinct ids.
pub resolve_extension_profiles-HasDistinctIds :
    (json : JsonText) (raw : String) (config : ConfigArg)
    → HasDistinctIds (resolve_extension_profiles json raw config)
unfolding resolve_extension_profiles
resolve_extension_profiles-HasDistinctIds json raw config =
    with_profiles-HasDistinctIds _ (config_profiles (parsed_config json config)) (
      found-HasDistinctIds (λ m. str_eq m.key (normalize_extension_key raw))
        dataplane_extension_catalog catalog-HasDistinctIds)

-- With a configuration whose `profiles` are an object of distinct keys, an id names the profile of
-- the configuration, if that has one of that id, and otherwise the profile that it names with no
-- configuration.
pub find-resolve_extension_profiles :
    (json : JsonText) (raw id : String) (o q : Fields)
    → get "profiles" o ≡ some (obj q)
    → HasDistinctKeys q
    → find_profile id (resolve_extension_profiles json raw (object o))
      ≡ or_else
          (custom_profile id (get id q))
          (find_profile id (resolve_extension_profiles json raw absent))
unfolding resolve_extension_profiles members
find-resolve_extension_profiles json raw id o q e distinct =
    rw (e, member_profiles)
      (find-merge_profiles id (builtins (find_dataplane_extension_meta raw)) q distinct)

builtin_cons :
    (s : String)
    → String.◌++◌ "builtin/" s
      ≡ String.◌∷◌ "b" (
          String.◌∷◌ "u" (
            String.◌∷◌ "i" (
              String.◌∷◌ "l"
                (String.◌∷◌ "t" (String.◌∷◌ "i" (String.◌∷◌ "n" (String.◌∷◌ "/" s)))))))
builtin_cons s =
    cons-append "b" "uiltin/" s
    ∙ ap (String.◌∷◌ "b") (
        cons-append "u" "iltin/" s
        ∙ ap (String.◌∷◌ "u") (
            cons-append "i" "ltin/" s
            ∙ ap (String.◌∷◌ "i") (
                cons-append "l" "tin/" s
                ∙ ap (String.◌∷◌ "l") (
                    cons-append "t" "in/" s
                    ∙ ap (String.◌∷◌ "t") (
                        cons-append "i" "n/" s
                        ∙ ap (String.◌∷◌ "i") (
                            cons-append "n" "/" s
                            ∙ ap (String.◌∷◌ "n")
                                (cons-append "/" "" s ∙ ap (String.◌∷◌ "/") (nil-append s))))))))

trim_builtin :
    (s : String) → trim s ≡ s → trim (String.◌++◌ "builtin/" s) ≡ String.◌++◌ "builtin/" s
unfolding trim
trim_builtin s h = rw (builtin_cons s) (rw (trim_end_of_trimmed s h))

strip_builtin_prefix : (s : String) → strip_prefix "builtin/" (String.◌++◌ "builtin/" s) ≡ some s
unfolding strip_prefix
strip_builtin_prefix s = rw (builtin_cons s)

-- The prefix of a built-in extension does not matter, for a key that has no spaces round it and no
-- such prefix of its own.
pub normalize_extension_key-builtin :
    (s : String)
    → trim s ≡ s
    → strip_prefix "builtin/" s ≡ none
    → normalize_extension_key (String.◌++◌ "builtin/" s) ≡ normalize_extension_key s
unfolding normalize_extension_key
normalize_extension_key-builtin s clean plain =
    rw (trim_builtin s clean, strip_builtin_prefix s) (rw (clean, plain))
