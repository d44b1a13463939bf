-- ===== src/Routes/Switches/Tests.antt =====
-- The switches of a route at concrete inputs.
use text.Mathlib.Text.{◌==◌ as str_eq}
use aurora_api_gateway.Prelude.{some, if◌then◌else◌, ◌≡◌, refl}
use aurora_api_gateway.Prelude.Text.{trim}
use aurora_api_gateway.Prelude.Json.{num, obj, Fields, end, get, JsonText}
use aurora_api_gateway.Routes.Switches.{
  parse_plugins_obj, get_route_extension_selected_profile, handle_select_profile, select_profile,
  profile_params, all_off, active_count, handle_set_all_off, handle_reset_inherit, is_off_word,
}
use aurora_api_gateway.Routes.Switches.Selection.{
  ReadsBack, IsProfileId, LeavesSwitches, selected-handle_select_profile,
  selected-handle_select_profile_other, selected-handle_select_profile_off,
  selected-handle_select_profile_word,
}

-- A codec for one object, and for the empty one.
abbrev codec : Fields → JsonText
codec o = record {
  parse = λ s. if str_eq s "{}" then some (obj end) else some (obj o);
  stringify = λ v. "text";
}

abbrev none_known : JsonText
none_known = codec end

strict : Fields
unfolding select_profile
strict = select_profile none_known end end "rate-limit" "strict"

abbrev json : JsonText
json = codec strict

strict_reads :
    ReadsBack json (select_profile json end (parse_plugins_obj json "{}") "rate-limit" "strict")
unfolding strict parse_plugins_obj select_profile
strict_reads = record { back = refl; full = refl }

strict_IsProfileId : IsProfileId "strict"
unfolding trim is_off_word
strict_IsProfileId = record { trimmed = refl; full = refl; on = refl }

strict_LeavesSwitches : LeavesSwitches (profile_params json end "rate-limit" "strict")
unfolding profile_params
strict_LeavesSwitches = record { enabled = refl; profile = refl }

burst : get "burst" (profile_params json end "builtin/rate-limit" "strict") ≡ some (num "20")
unfolding profile_params
burst = refl

selected-handle_select_profile_example :
    get_route_extension_selected_profile
      (parse_plugins_obj json (handle_select_profile json end "{}" "rate-limit" "strict"))
      "rate-limit"
      "x"
    ≡ "strict"
selected-handle_select_profile_example =
    selected-handle_select_profile json end "{}" "rate-limit" "strict" "x" strict_reads
      strict_IsProfileId strict_LeavesSwitches

selected-handle_select_profile_other_example :
    get_route_extension_selected_profile
      (parse_plugins_obj json (handle_select_profile json end "{}" "rate-limit" "strict"))
      "ip-restriction"
      "x"
    ≡ get_route_extension_selected_profile (parse_plugins_obj json "{}") "ip-restriction" "x"
selected-handle_select_profile_other_example =
    selected-handle_select_profile_other json end "{}" "rate-limit" "strict" "x" strict_reads
      "ip-restriction" refl refl refl

off : Fields
unfolding select_profile
off = select_profile none_known end end "rate-limit" "off"

selected-handle_select_profile_off_example :
    get_route_extension_selected_profile
      (parse_plugins_obj
        (codec off)
        (handle_select_profile (codec off) end "{}" "rate-limit" "off"))
      "rate-limit"
      "x"
    ≡ "off"
unfolding off parse_plugins_obj select_profile
selected-handle_select_profile_off_example =
    selected-handle_select_profile_off (codec off) end "{}" "rate-limit" "x"
      (record { back = refl; full = refl })

word : Fields
unfolding select_profile
word = select_profile none_known end end "rate-limit" "none"

selected-handle_select_profile_word_example :
    get_route_extension_selected_profile
      (parse_plugins_obj
        (codec word)
        (handle_select_profile (codec word) end "{}" "rate-limit" "none"))
      "rate-limit"
      "x"
    ≡ "off"
unfolding word parse_plugins_obj select_profile trim is_off_word
selected-handle_select_profile_word_example =
    selected-handle_select_profile_word (codec word) end "{}" "rate-limit" "none" "x"
      (record { back = refl; full = refl }) refl refl refl refl
      (record { enabled = refl; profile = refl })

-- After all are switched off no extension counts as active.
none_active :
    active_count (parse_plugins_obj (codec all_off) (handle_set_all_off (codec all_off))) ≡ 0
unfolding active_count parse_plugins_obj handle_set_all_off
none_active = refl

-- After the reset none does either.
none_inherited : active_count (parse_plugins_obj (codec all_off) handle_reset_inherit) ≡ 0
unfolding active_count parse_plugins_obj handle_reset_inherit
none_inherited = refl
