-- ===== src/Extensions/Editor.antt =====
-- The editor of an extension's configuration: its state and its handlers in
-- ui/src/pages/extensions/components/ExtensionConfigModal.tsx, with the text view of
-- ui/src/pages/extensions/components/config/ExtensionRawJson.tsx. The configuration is kept twice, as a
-- text and as a value, and its rules a third time, as a list.
pub mod Schema
pub mod Manager
pub mod Synced
pub mod Modes
pub mod Saved
mod Tests
use Prim.Native.Char.{Char}
use aurora_api_gateway.Prelude.{
  ℕ, zero, suc, ◌+◌, String, Bool, true, false, not, Option, none, some, List, [], ◌∷◌, ◌++◌,
  length, if◌then◌else◌,
}
use aurora_api_gateway.Prelude.Text.{is_empty, trim, or_text}
use aurora_api_gateway.Prelude.Json.{
  Json, null, bool, num, str, arr, obj, Items, Fields, end, field, get, put, remove, elements,
  items_of, truthy, JsonText,
}
use aurora_api_gateway.Extensions.Item.{ExtensionItem}
use aurora_api_gateway.Extensions.Profiles.{
  indexed, ConfigArg, absent, config_text, object, resolve_extension_profiles,
}
use aurora_api_gateway.Extensions.Editor.Schema.{SchemaField, initial_rule}

pub data WorkspaceMode : Type 0 where
  visual text_view : WorkspaceMode

pub data VisualTab : Type 0 where
  rules_tab parameters_tab profiles_tab : VisualTab

-- A message of `JSON.parse`, the message for reading a member of `null`, or either behind the words of
-- `handleApplyConfig`.
pub data EditorError : Type 0 where
  syntax_error invalid_json : String → EditorError
  null_config : EditorError

pub record ConfigEditor : Type 0 where
  pub workspace_mode : WorkspaceMode
  pub config_text : String
  pub parsed_config : Json
  pub rules : List Json
  pub is_editing_rule : Bool
  pub editing_index : Option ℕ
  pub rule_form : Fields
  pub json_error : Option EditorError
  pub is_saving : Bool
  pub save_success : Bool
  pub show_passwords : Fields
  pub visual_tab : VisualTab

abbrev pub init_config_editor : ConfigEditor
init_config_editor = record {
  workspace_mode = visual;
  config_text = "";
  parsed_config = obj end;
  rules = [];
  is_editing_rule = false;
  editing_index = none;
  rule_form = end;
  json_error = none;
  is_saving = false;
  save_success = false;
  show_passwords = end;
  visual_tab = rules_tab;
}

letters : String → Items
letters String.[] = Items.nil
letters (String.◌∷◌ c s) = Items.cons (str (String.◌∷◌ c String.[])) (letters s)

-- `{ ...v }`: the members of an object, an array or a text; other values have none.
pub spread : Json → Fields
unfolding letters indexed
spread (obj o) = o
spread (arr vs) = indexed 0 vs
spread (str s) = indexed 0 (letters s)
spread _ = end

abbrev pub array_elements : Option Json → List Json
array_elements (some (arr vs)) = elements vs
array_elements _ = []

-- The rules of a configuration: none where `rules` is no array.
unfoldable pub rules_of : Json → List Json
unfolding get elements
rules_of (obj o) = array_elements (get "rules" o)
rules_of _ = []

-- The rules are written into the configuration, or taken out of it where there are none.
pub put_rules : List Json → Fields → Fields
unfolding put remove items_of
put_rules [] o = remove "rules" o
put_rules (r ∷ rs) o = put "rules" (arr (items_of (r ∷ rs))) o

-- `updated[index] = rule`; a gap that this leaves prints as `null`.
pub put_at : ℕ → Json → List Json → List Json
put_at zero r [] = r ∷ []
put_at zero r (x ∷ xs) = r ∷ xs
put_at (suc i) r [] = null ∷ put_at i r []
put_at (suc i) r (x ∷ xs) = x ∷ put_at i r xs

pub drop_at : ℕ → List Json → List Json
drop_at i [] = []
drop_at zero (x ∷ xs) = xs
drop_at (suc i) (x ∷ xs) = x ∷ drop_at i xs

pub rule_at : ℕ → List Json → Option Json
rule_at i [] = none
rule_at zero (x ∷ xs) = some x
rule_at (suc i) (x ∷ xs) = rule_at i xs

-- The rule with the other value of `enabled`; there is none for `null` and past the end, where the
-- code throws.
pub toggled_rule : Option Json → Option Json
unfolding spread put get
toggled_rule none = none
toggled_rule (some null) = none
toggled_rule (some (obj o)) = some (obj (put "enabled" (bool (not (truthy (get "enabled" o)))) o))
toggled_rule (some v) = some (obj (put "enabled" (bool true) (spread v)))

-- `!v?.trim()`: it throws on a value that is there and is no text.
pub blank_member : Option Json → Option Bool
unfolding trim
blank_member none = some true
blank_member (some null) = some true
blank_member (some (str s)) = some (is_empty (trim s))
blank_member (some _) = none

-- Both tests, the second only where the first holds.
abbrev both_blank : Option Bool → Option Bool → Option Bool
both_blank none b = none
both_blank (some false) b = some false
both_blank (some true) b = b

-- The rule has no name, no pattern and no id.
pub is_blank_rule : Fields → Option Bool
unfolding blank_member get
is_blank_rule form =
    both_blank (blank_member (get "name" form))
      (both_blank (blank_member (get "pattern" form)) (blank_member (get "id" form)))

-- The eye of a password field, and the tabs.
unfoldable pub toggle_show_password : String → ConfigEditor → ConfigEditor
unfolding put get
toggle_show_password key s = record s {
  show_passwords = put key (bool (not (truthy (get key s.show_passwords)))) s.show_passwords;
}

unfoldable pub select_tab : VisualTab → ConfigEditor → ConfigEditor
select_tab tab s = record s { visual_tab = tab }

-- The configuration as `resolveExtensionProfiles` takes it: an array has no profiles, like nothing.
abbrev pub config_arg : Json → ConfigArg
config_arg (obj o) = object o
config_arg (str s) = config_text s
config_arg _ = absent

module _ (json : JsonText) where
  -- `availableProfilesCount`
  unfoldable pub available_profiles_count : ExtensionItem → ConfigEditor → ℕ
  available_profiles_count ext s =
      length (resolve_extension_profiles json ext.id (config_arg s.parsed_config))

  -- `syncToJSON`
  unfoldable pub sync_to_json : Fields → List Json → ConfigEditor → ConfigEditor
  unfolding put_rules
  sync_to_json config rules s = record s {
    config_text = json.stringify (obj (put_rules rules config));
    parsed_config = obj (put_rules rules config);
  }

  -- What the text opens as: it does not parse, or is `null`, and counts as the empty configuration.
  opened : ExtensionItem → Option Json → ConfigEditor → ConfigEditor
  opened ext none s = record s {
    config_text = or_text ext.config_json "{}";
    parsed_config = obj end;
    rules = [];
  }
  opened ext (some null) s = record s {
    config_text = or_text ext.config_json "{}";
    parsed_config = obj end;
    rules = [];
  }
  opened ext (some v) s = record s {
    config_text = json.stringify v;
    parsed_config = v;
    rules = rules_of v;
  }

  -- The effect that fills the editor.
  unfoldable pub open_editor : ExtensionItem → ConfigEditor → ConfigEditor
  unfolding opened rules_of
  open_editor ext s = record (opened ext (json.parse (or_text ext.config_json "{}")) s) {
    json_error = none;
    save_success = false;
    is_editing_rule = false;
    editing_index = none;
    workspace_mode = visual;
    visual_tab = profiles_tab;
  }

  read_text : (String → String) → String → Option Json → ConfigEditor → ConfigEditor × Bool
  read_text message text_value none s =
      (record s { json_error = some (syntax_error (message text_value)) }, false)
  read_text message text_value (some null) s =
      (record s { parsed_config = null; json_error = some null_config }, false)
  read_text message text_value (some v) s =
      (record s { parsed_config = v; rules = rules_of v; json_error = none }, true)

  -- `syncFromJSON`, with whether it succeeded. The message for a text is that of `JSON.parse`.
  unfoldable pub sync_from_json : (String → String) → String → ConfigEditor → ConfigEditor × Bool
  unfolding read_text rules_of
  sync_from_json message text_value s = read_text message text_value (json.parse text_value) s

  entered : ConfigEditor × Bool → ConfigEditor
  entered (s, true) = record s { workspace_mode = visual }
  entered (s, false) = s

  unfoldable pub handle_mode_change :
      (String → String) → WorkspaceMode → ConfigEditor → ConfigEditor
  unfolding entered sync_from_json sync_to_json spread
  handle_mode_change message visual s = entered (sync_from_json message s.config_text s)
  handle_mode_change message text_view s =
      record (sync_to_json (spread s.parsed_config) s.rules s) { workspace_mode = text_view }

  unfoldable pub handle_field_change : String → Json → ConfigEditor → ConfigEditor
  unfolding sync_to_json spread put
  handle_field_change key value s = sync_to_json (put key value (spread s.parsed_config)) s.rules s

  pub with_profiles_member : Fields → Fields → Fields
  with_profiles_member end config = remove "profiles" config
  with_profiles_member (field k v o) config = put "profiles" (obj (field k v o)) config

  unfoldable pub handle_update_profiles : Fields → ConfigEditor → ConfigEditor
  unfolding with_profiles_member sync_to_json spread put remove
  handle_update_profiles next s =
      sync_to_json (with_profiles_member next (spread s.parsed_config)) s.rules s

  unfoldable pub handle_open_add_rule :
      ExtensionItem → List SchemaField → ℕ → ConfigEditor → ConfigEditor
  unfolding initial_rule
  handle_open_add_rule ext fields now s = record s {
    rule_form = initial_rule ext.id now fields;
    editing_index = none;
    is_editing_rule = true;
  }

  unfoldable pub handle_open_edit_rule : Json → ℕ → ConfigEditor → ConfigEditor
  unfolding spread
  handle_open_edit_rule rule index s = record s {
    rule_form = spread rule;
    editing_index = some index;
    is_editing_rule = true;
  }

  unfoldable pub cancel_rule : ConfigEditor → ConfigEditor
  cancel_rule s = record s { is_editing_rule = false; editing_index = none }

  abbrev pub with_rules : List Json → ConfigEditor → ConfigEditor
  with_rules rules s = sync_to_json (spread s.parsed_config) rules (record s { rules = rules })

  abbrev pub entered_rules : Option ℕ → Fields → List Json → List Json
  entered_rules none form rules = rules ++ (obj form ∷ [])
  entered_rules (some index) form rules = put_at index (obj form) rules

  save_rule : Option Bool → ConfigEditor → ConfigEditor
  save_rule (some false) s =
      record (with_rules (entered_rules s.editing_index s.rule_form s.rules) s) {
        is_editing_rule = false;
        editing_index = none;
      }
  save_rule _ s = s

  -- `handleSaveRuleEntry`; where the test throws nothing changes.
  unfoldable pub handle_save_rule_entry : ConfigEditor → ConfigEditor
  unfolding save_rule is_blank_rule put_at sync_to_json
  handle_save_rule_entry s = save_rule (is_blank_rule s.rule_form) s

  unfoldable pub handle_delete_rule : ℕ → ConfigEditor → ConfigEditor
  unfolding drop_at sync_to_json
  handle_delete_rule index s = with_rules (drop_at index s.rules) s

  toggle_rule : ℕ → Option Json → ConfigEditor → ConfigEditor
  toggle_rule index none s = s
  toggle_rule index (some rule) s = with_rules (put_at index rule s.rules) s

  unfoldable pub handle_toggle_rule : ℕ → ConfigEditor → ConfigEditor
  unfolding toggle_rule toggled_rule rule_at put_at sync_to_json
  handle_toggle_rule index s = toggle_rule index (toggled_rule (rule_at index s.rules)) s

  -- The text that is saved: in the visual mode it is printed anew.
  prepared : WorkspaceMode → ConfigEditor → ConfigEditor
  prepared visual s = sync_to_json (spread s.parsed_config) s.rules s
  prepared text_view s = s

  sent_config :
      (Json → String)
      → (String → String)
      → ExtensionItem
      → Option Json
      → ConfigEditor
      → ConfigEditor × Option (String × String)
  sent_config minify message ext none s = (
    record s { json_error = some (invalid_json (message s.config_text)); is_saving = false },
    none,
  )
  sent_config minify message ext (some v) s =
      (record s { json_error = none; is_saving = true }, some (ext.id, minify v))

  -- `handleApplyConfig` up to the request, which has the id and the text of `JSON.stringify` without
  -- spaces.
  unfoldable pub handle_apply_config :
      (Json → String)
      → (String → String)
      → ExtensionItem
      → ConfigEditor
      → ConfigEditor × Option (String × String)
  unfolding sent_config prepared sync_to_json
  handle_apply_config minify message ext s =
      let ready = prepared s.workspace_mode s in
      sent_config minify message ext (json.parse ready.config_text) ready

  -- The rest of it: `onSave` says whether the controller took the configuration.
  unfoldable pub settle_apply : Bool → ConfigEditor → ConfigEditor
  settle_apply ok s = record s {
    is_saving = false;
    save_success = if ok then true else s.save_success;
  }

  -- The text view: a keystroke, and the button that lays the text out.
  unfoldable pub edit_text : String → ConfigEditor → ConfigEditor
  edit_text text_value s = record s { config_text = text_value; json_error = none }

  laid_out : (String → String) → Option Json → ConfigEditor → ConfigEditor
  laid_out message none s = record s { json_error = some (syntax_error (message s.config_text)) }
  laid_out message (some v) s = record s { config_text = json.stringify v; json_error = none }

  unfoldable pub handle_format : (String → String) → ConfigEditor → ConfigEditor
  unfolding laid_out
  handle_format message s = laid_out message (json.parse s.config_text) s
