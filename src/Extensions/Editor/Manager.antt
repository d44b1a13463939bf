-- ===== src/Extensions/Editor/Manager.antt =====
-- The profiles of an extension in its editor: the state and the handlers of
-- ui/src/pages/extensions/components/config/ExtensionProfilesManager.tsx.
use Prim.Native.Char.{Char, code}
use Prim.Native.String.{char_at}
use aurora_api_gateway.Prelude.{
  ℕ, String, Bool, true, false, ◌&&◌, ◌||◌, Option, none, some, List, [], ◌∷◌, leb, ◌==◌, max,
  if◌then◌else◌,
}
use aurora_api_gateway.Prelude.Text.{is_empty, trim, or_text, to_lower_case, decimal}
use aurora_api_gateway.Prelude.Json.{Json, num, str, obj, Fields, end, put, remove}
use aurora_api_gateway.Extensions.Catalog.{
  ExtensionProfileOption, DataplaneExtensionMeta, ProfileFieldSchema,
}
use aurora_api_gateway.Extensions.Profiles.{find_dataplane_extension_meta, config_profiles}

-- `editingId` is the profile that is edited; its id cannot be changed then.
pub record ProfileForm : Type 0 where
  pub is_adding : Bool
  pub editing_id : Option String
  pub prof_id : String
  pub prof_label : String
  pub prof_summary : String
  pub prof_params : Fields

abbrev pub init_profile_form : ProfileForm
init_profile_form = record {
  is_adding = false;
  editing_id = none;
  prof_id = "";
  prof_label = "";
  prof_summary = "";
  prof_params = end;
}

-- `customProfilesMap`
abbrev pub or_no_fields : Option Fields → Fields
or_no_fields none = end
or_no_fields (some o) = o

unfoldable pub custom_profiles_map : Json → Fields
unfolding config_profiles
custom_profiles_map parsed_config = or_no_fields (config_profiles (some parsed_config))

default_params : Fields → List ProfileFieldSchema → Fields
unfolding put
default_params params [] = params
default_params params (f ∷ fs) = default_params (put f.key f.default_value params) fs

abbrev fields_of : Option DataplaneExtensionMeta → List ProfileFieldSchema
fields_of none = []
fields_of (some m) = m.profile_fields

unfoldable pub open_create : String → ProfileForm
unfolding default_params find_dataplane_extension_meta
open_create extension_key = record {
  is_adding = true;
  editing_id = none;
  prof_id = "";
  prof_label = "";
  prof_summary = "";
  prof_params = default_params end (fields_of (find_dataplane_extension_meta extension_key));
}

unfoldable pub open_edit : ExtensionProfileOption → ProfileForm
open_edit p = record {
  is_adding = true;
  editing_id = some p.id;
  prof_id = p.id;
  prof_label = p.label;
  prof_summary = p.summary;
  prof_params = p.params;
}

-- The inputs of the parameters; a number is at least one.
unfoldable pub change_text_param : String → String → ProfileForm → ProfileForm
unfolding put
change_text_param key value f = record f { prof_params = put key (str value) f.prof_params }

abbrev at_least_one : Option ℕ → ℕ
at_least_one none = 1
at_least_one (some n) = max 1 n

unfoldable pub change_number_param : String → Option ℕ → ProfileForm → ProfileForm
unfolding put decimal
change_number_param key n f = record f {
  prof_params = put key (num (decimal (at_least_one n))) f.prof_params;
}

-- The characters that `[^a-z0-9_-]` does not match.
unfoldable pub is_id_code : ℕ → Bool
is_id_code c = (leb 97 c && leb c 122) || (leb 48 c && leb c 57) || c == 95 || c == 45

abbrev pub underscore : Char
underscore = char_at "_" 0

unfoldable pub clean_chars : String → String
unfolding is_id_code
clean_chars String.[] = String.[]
clean_chars (String.◌∷◌ c s) =
    String.◌∷◌ (if is_id_code (code c) then c else underscore) (clean_chars s)

unfoldable pub clean_id : String → String
unfolding clean_chars trim to_lower_case
clean_id id = clean_chars (to_lower_case (trim id))

-- The member for a profile: its parameters, its label, and its summary if it has one.
unfoldable pub profile_entry : String → ProfileForm → Fields
unfolding put trim
profile_entry id f =
    let labelled = put "label" (str (or_text (trim f.prof_label) id)) f.prof_params in
    if is_empty (trim f.prof_summary)
    then labelled
    else put "summary" (str (trim f.prof_summary)) labelled

-- `handleSaveProfile`: the form, and the profiles that are handed to `onUpdateProfiles`.
unfoldable pub handle_save_profile : Json → ProfileForm → ProfileForm × Option Fields
unfolding clean_id profile_entry custom_profiles_map put
handle_save_profile parsed_config f = if is_empty (clean_id f.prof_id) then (f, none) else (
  record f { is_adding = false; editing_id = none },
  some (
      put (clean_id f.prof_id) (obj (profile_entry (clean_id f.prof_id) f))
        (custom_profiles_map parsed_config)),
)

-- `handleDeleteProfile`: the profiles that are handed to `onUpdateProfiles`.
unfoldable pub handle_delete_profile : Json → String → Fields
unfolding custom_profiles_map remove
handle_delete_profile parsed_config id = remove id (custom_profiles_map parsed_config)
