-- ===== src/Routes/Switches/Selection.antt =====
-- Choosing a profile and reading the choice back.
use text.Mathlib.Text.{◌==◌ as str_eq}
use aurora_api_gateway.Prelude.{
  String, true, false, ◌||◌, none, some, if◌then◌else◌, ◌≡◌, refl, ap, ◌∙◌, inl, inr, arith,
  Bool-cases,
}
use aurora_api_gateway.Prelude.Text.{is_empty, trim}
use aurora_api_gateway.Prelude.Text.Laws.{or_text_of_full}
use aurora_api_gateway.Prelude.Json.{bool, str, obj, Fields, end, field, get, put, JsonText}
use aurora_api_gateway.Prelude.Json.Laws.{get-put_self, get-put_other, get-remove}
use aurora_api_gateway.Routes.Switches.{
  parse_plugins_obj, is_off_word, entry_profile, selected_entry, selected_value,
  get_route_extension_selected_profile, copy_params, route_entry, off_entry, profile_params,
  explicit, select_profile, handle_select_profile,
}

-- An id that a route can name: trimmed, not empty, and no word for "off".
pub record IsProfileId (id : String) : Type 0 where
  pub trimmed : trim id ≡ id
  pub full : is_empty id ≡ false
  pub on : is_off_word id ≡ false

-- Parameters that leave the two switches of an entry alone.
pub record LeavesSwitches (params : Fields) : Type 0 where
  pub enabled : get "enabled" params ≡ none
  pub profile : get "profile" params ≡ none

get-copy_params :
    (k : String) (entry params : Fields)
    → get k params ≡ none
    → get k (copy_params entry params) ≡ get k entry
unfolding copy_params get
get-copy_params k entry end h = refl
get-copy_params k entry (field j v more) h = elim (Bool-cases (str_eq j k)) [
  | inl same ↦ absurd (ground arith)
  | inr other ↦
      get-copy_params k (if str_eq j "label" || str_eq j "summary" then entry else put j v entry)
        more (ground arith)
      ∙ elim (Bool-cases (str_eq j "label" || str_eq j "summary")) [
        | inl skip ↦ rw skip
        | inr take ↦ rw take (get-put_other j k v entry other)
      ]
]

get-route_entry_enabled :
    (id : String) (params : Fields)
    → get "enabled" params ≡ none
    → get "enabled" (route_entry id params) ≡ some (bool true)
unfolding route_entry get
get-route_entry_enabled id params h = get-copy_params "enabled" _ params h

get-route_entry_profile :
    (id : String) (params : Fields)
    → get "profile" params ≡ none
    → get "profile" (route_entry id params) ≡ some (str id)
unfolding route_entry get
get-route_entry_profile id params h = get-copy_params "profile" _ params h

-- An id that is a word for "off" is read as "off".
selected-route_entry_word :
    (id default : String) (params : Fields)
    → trim id ≡ id
    → is_empty id ≡ false
    → is_off_word id ≡ true
    → LeavesSwitches params
    → selected_value default (some (obj (route_entry id params))) ≡ "off"
unfolding selected_value selected_entry entry_profile
selected-route_entry_word id default params t f w l =
    rw (get-route_entry_enabled id params l.enabled)
      (rw (get-route_entry_profile id params l.profile) (rw t (rw (f, w))))

selected-route_entry :
    (id default : String) (params : Fields)
    → IsProfileId id
    → LeavesSwitches params
    → selected_value default (some (obj (route_entry id params))) ≡ id
unfolding selected_value selected_entry entry_profile
selected-route_entry id default params v l =
    rw (get-route_entry_enabled id params l.enabled)
      (rw (get-route_entry_profile id params l.profile) (rw (v.trimmed) (rw (v.full, v.on))))

on-not_off : (id : String) → is_off_word id ≡ false → str_eq id "off" ≡ false
unfolding is_off_word
on-not_off id h = ground arith

-- Writing the choice of an extension, and then reading another member.
get-select_profile_other :
    (json : JsonText) (live o : Fields) (ext id other : String)
    → str_eq ext other ≡ false
    → str_eq "_mode" other ≡ false
    → str_eq "_profile" other ≡ false
    → get other (select_profile json live o ext id) ≡ get other o
unfolding select_profile
get-select_profile_other json live o ext id other e m p = elim (Bool-cases (str_eq id "off")) [
  | inl off ↦ rw off (get-put_other ext other (obj off_entry) (explicit o) e ∙ kept)
  | inr on ↦ rw on (
      get-put_other ext other (obj (route_entry id (profile_params json live ext id))) (explicit o)
        e
      ∙ kept)
]
  where
    kept : get other (explicit o) ≡ get other o
    kept =
        get-remove "_profile" other (put "_mode" (str "explicit") o)
        ∙ rw p (get-put_other "_mode" other (str "explicit") o m)

get-select_profile_on :
    (json : JsonText) (live o : Fields) (ext id : String)
    → str_eq id "off" ≡ false
    → get ext (select_profile json live o ext id)
      ≡ some (obj (route_entry id (profile_params json live ext id)))
unfolding select_profile
get-select_profile_on json live o ext id on = rw on (get-put_self ext _ (explicit o))

get-select_profile_off :
    (json : JsonText) (live o : Fields) (ext : String)
    → get ext (select_profile json live o ext "off") ≡ some (obj off_entry)
unfolding select_profile
get-select_profile_off json live o ext = get-put_self ext (obj off_entry) (explicit o)

-- What a page reads from the text that a choice hands over.
reads_back :
    (json : JsonText) (o : Fields)
    → json.parse (json.stringify (obj o)) ≡ some (obj o)
    → is_empty (json.stringify (obj o)) ≡ false
    → parse_plugins_obj json (json.stringify (obj o)) ≡ o
unfolding parse_plugins_obj
reads_back json o back full = rw (or_text_of_full (json.stringify (obj o)) "{}" full) (rw back)

-- Another extension reads as before.
pub selected_of_other :
    (json : JsonText) (live o : Fields) (ext id other default : String)
    → str_eq ext other ≡ false
    → str_eq "_mode" other ≡ false
    → str_eq "_profile" other ≡ false
    → get_route_extension_selected_profile (select_profile json live o ext id) other default
      ≡ get_route_extension_selected_profile o other default
unfolding get_route_extension_selected_profile
selected_of_other json live o ext id other default e m p =
    ap (selected_value default) (get-select_profile_other json live o ext id other e m p)

pub selected_of_chosen :
    (json : JsonText) (live o : Fields) (ext id default : String)
    → IsProfileId id
    → LeavesSwitches (profile_params json live ext id)
    → get_route_extension_selected_profile (select_profile json live o ext id) ext default ≡ id
unfolding get_route_extension_selected_profile
selected_of_chosen json live o ext id default v l =
    ap (selected_value default) (get-select_profile_on json live o ext id (on-not_off id v.on))
    ∙ selected-route_entry id default (profile_params json live ext id) v l

-- `JSON.parse` reads back what `JSON.stringify` writes for an object, and that is not empty.
pub record ReadsBack (json : JsonText) (o : Fields) : Type 0 where
  pub back : json.parse (json.stringify (obj o)) ≡ some (obj o)
  pub full : is_empty (json.stringify (obj o)) ≡ false

module _ (json : JsonText) (live : Fields) (raw ext id default : String)
    (reads : ReadsBack json (select_profile json live (parse_plugins_obj json raw) ext id)) where
  handled :
      parse_plugins_obj json (handle_select_profile json live raw ext id)
      ≡ select_profile json live (parse_plugins_obj json raw) ext id
  unfolding handle_select_profile
  handled =
      reads_back json (select_profile json live (parse_plugins_obj json raw) ext id) reads.back
        reads.full

  -- After a profile was chosen for an extension the route names that profile for it, whatever the
  -- text held before: for an id that is trimmed, not empty and no word for "off", where the
  -- parameters of the profile have no member `enabled` or `profile` and the JSON reads back.
  pub selected-handle_select_profile :
      IsProfileId id
      → LeavesSwitches (profile_params json live ext id)
      → get_route_extension_selected_profile
          (parse_plugins_obj json (handle_select_profile json live raw ext id))
          ext
          default
        ≡ id
  selected-handle_select_profile v l =
      ap (λ o. get_route_extension_selected_profile o ext default) handled
      ∙ selected_of_chosen json live (parse_plugins_obj json raw) ext id default v l

  -- A profile whose id is a word for "off" other than "off" itself can be chosen, and the route then
  -- reads as switched off, under the same conditions on the id, the parameters and the JSON.
  pub selected-handle_select_profile_word :
      trim id ≡ id
      → is_empty id ≡ false
      → is_off_word id ≡ true
      → str_eq id "off" ≡ false
      → LeavesSwitches (profile_params json live ext id)
      → get_route_extension_selected_profile
          (parse_plugins_obj json (handle_select_profile json live raw ext id))
          ext
          default
        ≡ "off"
  unfolding get_route_extension_selected_profile
  selected-handle_select_profile_word t f w on l =
      ap (λ o. selected_value default (get ext o)) handled
      ∙ ap (selected_value default)
          (get-select_profile_on json live (parse_plugins_obj json raw) ext id on)
      ∙ selected-route_entry_word id default (profile_params json live ext id) t f w l

  -- The other extensions keep their profiles, for keys other than the members `_mode` and
  -- `_profile` of the object, where the JSON reads back.
  pub selected-handle_select_profile_other :
      (other : String)
      → str_eq ext other ≡ false
      → str_eq "_mode" other ≡ false
      → str_eq "_profile" other ≡ false
      → get_route_extension_selected_profile
          (parse_plugins_obj json (handle_select_profile json live raw ext id))
          other
          default
        ≡ get_route_extension_selected_profile (parse_plugins_obj json raw) other default
  selected-handle_select_profile_other other e m p =
      ap (λ o. get_route_extension_selected_profile o other default) handled
      ∙ selected_of_other json live (parse_plugins_obj json raw) ext id other default e m p

-- Choosing "off" switches the extension off, where the JSON reads back.
pub selected-handle_select_profile_off :
    (json : JsonText) (live : Fields) (raw ext default : String)
    → ReadsBack json (select_profile json live (parse_plugins_obj json raw) ext "off")
    → get_route_extension_selected_profile
        (parse_plugins_obj json (handle_select_profile json live raw ext "off"))
        ext
        default
      ≡ "off"
unfolding get_route_extension_selected_profile
selected-handle_select_profile_off json live raw ext default reads =
    ap (λ o. selected_value default (get ext o)) (handled json live raw ext "off" default reads)
    ∙ ap (selected_value default)
        (get-select_profile_off json live (parse_plugins_obj json raw) ext)
