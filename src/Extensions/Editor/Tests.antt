-- ===== src/Extensions/Editor/Tests.antt =====
-- Configurations run through the editor.
use aurora_api_gateway.Prelude.{Bool, true, false, none, some, List, [], ◌∷◌, ◌≡◌, refl}
use aurora_api_gateway.Prelude.Text.{is_empty, trim, or_text}
use aurora_api_gateway.Prelude.Json.{
  Json, bool, str, arr, obj, nil, cons, Fields, end, field, get, put, JsonText,
}
use aurora_api_gateway.Extensions.Item.{ExtensionItem}
use aurora_api_gateway.Extensions.Profiles.{resolve_extension_profiles}
use aurora_api_gateway.Extensions.Profiles.Merge.{find_profile}
use aurora_api_gateway.Extensions.Editor.{
  ConfigEditor, visual, text_view, init_config_editor, rules_of, put_rules, handle_mode_change,
  handle_format, handle_apply_config, handle_update_profiles, config_arg,
}
use aurora_api_gateway.Extensions.Editor.Synced.{
  IsSynced, VisualEvent, open_add_rule, change_rule_form, press_save_rule, press_toggle,
  change_field, visual_run, visual_step, handle_apply_config-visual_run,
}
use aurora_api_gateway.Extensions.Editor.Modes.{listed, handle_mode_change-handle_format}
use aurora_api_gateway.Extensions.Editor.Manager.{
  ProfileForm, init_profile_form, clean_id, handle_save_profile, profile_entry, custom_profiles_map,
}
use aurora_api_gateway.Extensions.Editor.Saved.{saved_option, find_profile-handle_save_profile}

-- A reader and a printer of one configuration.
abbrev codec : Fields → JsonText
codec o = record { parse = λ s. some (obj o); stringify = λ v. "text" }

abbrev limiter : ExtensionItem
limiter = record {
  id = "rate-limit";
  name = "Rate limit";
  category = "traffic";
  description = "";
  manifest_key = none;
  manifest_version = none;
  manifest_digest = none;
  version = none;
  enabled = true;
  config_json = "{}";
  config_schema_json = none;
  ui_schema_json = none;
  supported = none;
  schema_json = none;
  is_builtin = true;
  tags = none;
  default_config = none;
  created_at = none;
  updated_at = none;
}

abbrev opened : ConfigEditor
opened = record init_config_editor { config_text = "text" }

abbrev rule : Bool → Json
rule on = obj (field "id" (str "r") (field "name" (str "slow") (field "enabled" (bool on) end)))

-- A rule is added, the mode of the extension is set, and the rule is switched off.
abbrev rule_events : List VisualEvent
rule_events =
    open_add_rule limiter [] 1
    ∷ change_rule_form
        (field "id" (str "r") (field "name" (str "slow") (field "enabled" (bool true) end)))
    ∷ press_save_rule
    ∷ change_field "mode" (str "strict")
    ∷ press_toggle 0
    ∷ []

abbrev final_config : Fields
final_config = field "rules" (arr (cons (rule false) nil)) (field "mode" (str "strict") end)

rules_run : (visual_run (codec final_config) opened rule_events).parsed_config ≡ obj final_config
unfolding visual_run visual_step trim
rules_run = refl

opened-IsSynced : IsSynced (codec final_config) opened
unfolding put_rules
opened-IsSynced = record { config = end; value = refl; printed = refl; rules = refl; shown = refl }

final_read :
    (codec final_config).parse (visual_run (codec final_config) opened rule_events).config_text
    ≡ some (visual_run (codec final_config) opened rule_events).parsed_config
unfolding visual_run visual_step trim
final_read = refl

handle_apply_config-visual_run_example :
    ((visual_run (codec final_config) opened rule_events).config_text
      ≡ (codec final_config).stringify
          (visual_run (codec final_config) opened rule_events).parsed_config)
    × ((rules_of (visual_run (codec final_config) opened rule_events).parsed_config
          ≡ (visual_run (codec final_config) opened rule_events).rules)
        × ((handle_apply_config
              (codec final_config)
              (λ v. "min")
              (λ s. "")
              limiter
              (visual_run (codec final_config) opened rule_events)).1
            ≡ some ("rate-limit", "min")))
handle_apply_config-visual_run_example =
    handle_apply_config-visual_run (codec final_config) (λ v. "min") (λ s. "") limiter opened
      rule_events opened-IsSynced final_read

handle_mode_change-handle_format_example :
    (handle_mode_change
      (codec final_config)
      (λ s. "")
      text_view
      (handle_mode_change (codec final_config) (λ s. "") visual opened)).config_text
    ≡ (handle_format (codec final_config) (λ s. "") opened).config_text
handle_mode_change-handle_format_example =
    handle_mode_change-handle_format (codec final_config) (λ s. "") opened final_config refl
      (listed (rule false) nil (unfold get in refl))

abbrev partner : ProfileForm
partner = record init_profile_form { prof_id = " VIP Partner "; prof_label = "  Partners " }

partner_id : clean_id " VIP Partner " ≡ "vip_partner"
unfolding clean_id
partner_id = refl

partner_next : Fields
unfolding put profile_entry
partner_next = put "vip_partner" (obj (profile_entry "vip_partner" partner)) end

partner_saved : (handle_save_profile opened.parsed_config partner).1 ≡ some partner_next
unfolding handle_save_profile partner_next
partner_saved = refl

partner_given : is_empty (clean_id partner.prof_id) ≡ false
unfolding clean_id
partner_given = refl

find_profile-handle_save_profile_example :
    (find_profile (clean_id partner.prof_id) (
        resolve_extension_profiles
          (codec end)
          "rate-limit"
          (config_arg (handle_update_profiles (codec end) partner_next opened).parsed_config))
      ≡ some (saved_option partner))
    × ((saved_option partner).label ≡ or_text (trim partner.prof_label) (clean_id partner.prof_id))
find_profile-handle_save_profile_example =
    find_profile-handle_save_profile (codec end) "rate-limit" opened partner partner_next
      (unfold custom_profiles_map in tt) partner_given partner_saved
