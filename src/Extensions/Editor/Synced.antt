-- ===== src/Extensions/Editor/Synced.antt =====
-- In the visual mode the text, the value and the list of rules agree after every chain of events, and
-- what is saved is what the editor shows.
use aurora_api_gateway.Prelude.{
  ℕ, String, Bool, true, false, Option, none, some, List, [], ◌∷◌, ◌≡◌, refl, sym, ap, ◌∙◌,
}
use aurora_api_gateway.Prelude.Json.{Json, obj, arr, Fields, get, put, remove, items_of, JsonText}
use aurora_api_gateway.Prelude.Json.Laws.{
  get-put_self, get-remove, put_same, remove_absent, elements-items_of,
}
use aurora_api_gateway.Extensions.Item.{ExtensionItem}
use aurora_api_gateway.Extensions.Editor.Schema.{SchemaField}
use aurora_api_gateway.Extensions.Editor.{
  ConfigEditor, visual, spread, rules_of, put_rules, is_blank_rule, rule_at, toggled_rule, put_at,
  drop_at, sync_to_json, handle_field_change, handle_update_profiles, handle_open_add_rule,
  handle_open_edit_rule, cancel_rule, with_rules, entered_rules, save_rule, handle_save_rule_entry,
  handle_delete_rule, toggle_rule, handle_toggle_rule, handle_apply_config, sent_config, prepared,
  with_profiles_member,
}

-- What happens in the visual mode. A change of the form of a rule hands over the new form.
pub data VisualEvent : Type 0 where
  change_field : String → Json → VisualEvent
  update_profiles : Fields → VisualEvent
  open_add_rule : ExtensionItem → List SchemaField → ℕ → VisualEvent
  open_edit_rule : Json → ℕ → VisualEvent
  change_rule_form : Fields → VisualEvent
  press_cancel press_save_rule : VisualEvent
  delete_rule press_toggle : ℕ → VisualEvent

get-put_rules_empty : (o : Fields) → get "rules" (remove "rules" o) ≡ none
get-put_rules_empty o = get-remove "rules" "rules" o

-- The rules are read back from the configuration that they were written to.
pub rules_of-put_rules : (rs : List Json) (o : Fields) → rules_of (obj (put_rules rs o)) ≡ rs
unfolding rules_of put_rules
rules_of-put_rules [] o = rw (get-put_rules_empty o) refl
rules_of-put_rules (r ∷ rs) o =
    rw (get-put_self "rules" (arr (items_of (r ∷ rs))) o) (elements-items_of (r ∷ rs))

pub put_rules_idem : (rs : List Json) (o : Fields) → put_rules rs (put_rules rs o) ≡ put_rules rs o
unfolding put_rules
put_rules_idem [] o = remove_absent "rules" (remove "rules" o) (get-put_rules_empty o)
put_rules_idem (r ∷ rs) o =
    put_same "rules" (arr (items_of (r ∷ rs))) (put "rules" (arr (items_of (r ∷ rs))) o)
      (get-put_self "rules" (arr (items_of (r ∷ rs))) o)

module _ (json : JsonText) where
  -- The text, the value and the rules are those of one configuration.
  pub record IsSynced (s : ConfigEditor) : Type 0 where
    pub config : Fields
    pub value : s.parsed_config ≡ obj config
    pub printed : s.config_text ≡ json.stringify (obj config)
    pub rules : put_rules s.rules config ≡ config
    pub shown : s.workspace_mode ≡ visual

  sync_to_json-IsSynced :
      (config : Fields) (rs : List Json) (s : ConfigEditor)
      → s.rules ≡ rs
      → s.workspace_mode ≡ visual
      → IsSynced (sync_to_json json config rs s)
  unfolding sync_to_json
  sync_to_json-IsSynced config rs s same mode = record {
    config = put_rules rs config;
    value = refl;
    printed = refl;
    rules = ap (λ qs. put_rules qs (put_rules rs config)) same ∙ put_rules_idem rs config;
    shown = mode;
  }

  with_rules-IsSynced :
      (rs : List Json) (s : ConfigEditor) → IsSynced s → IsSynced (with_rules json rs s)
  with_rules-IsSynced rs s v =
      sync_to_json-IsSynced (spread s.parsed_config) rs (record s { rules = rs }) refl v.shown

  -- The form of a rule, and whether it is open, do not matter.
  form-IsSynced :
      (form : Fields) (index : Option ℕ) (shows : Bool) (s : ConfigEditor)
      → IsSynced s
      → IsSynced (record s { rule_form = form; editing_index = index; is_editing_rule = shows })
  form-IsSynced form index shows s v = record {
    config = v.config;
    value = v.value;
    printed = v.printed;
    rules = v.rules;
    shown = v.shown;
  }

  save_rule-IsSynced :
      (blank : Option Bool) (s : ConfigEditor) → IsSynced s → IsSynced (save_rule json blank s)
  unfolding save_rule sync_to_json
  save_rule-IsSynced none s v = v
  save_rule-IsSynced (some true) s v = v
  save_rule-IsSynced (some false) s v =
      form-IsSynced s.rule_form none false _
        (with_rules-IsSynced (entered_rules json s.editing_index s.rule_form s.rules) s v)

  toggle_rule-IsSynced :
      (index : ℕ) (rule : Option Json) (s : ConfigEditor)
      → IsSynced s
      → IsSynced (toggle_rule json index rule s)
  unfolding toggle_rule
  toggle_rule-IsSynced index none s v = v
  toggle_rule-IsSynced index (some rule) s v = with_rules-IsSynced (put_at index rule s.rules) s v

  unfoldable pub visual_step : ConfigEditor → VisualEvent → ConfigEditor
  unfolding handle_field_change handle_update_profiles handle_open_add_rule handle_open_edit_rule
      cancel_rule handle_save_rule_entry handle_delete_rule handle_toggle_rule
  visual_step s (change_field key value) = handle_field_change json key value s
  visual_step s (update_profiles next) = handle_update_profiles json next s
  visual_step s (open_add_rule ext fields now) = handle_open_add_rule json ext fields now s
  visual_step s (open_edit_rule rule index) = handle_open_edit_rule json rule index s
  visual_step s (change_rule_form form) = record s { rule_form = form }
  visual_step s press_cancel = cancel_rule json s
  visual_step s press_save_rule = handle_save_rule_entry json s
  visual_step s (delete_rule index) = handle_delete_rule json index s
  visual_step s (press_toggle index) = handle_toggle_rule json index s

  visual_step-IsSynced :
      (s : ConfigEditor) (e : VisualEvent) → IsSynced s → IsSynced (visual_step s e)
  unfolding visual_step
  visual_step-IsSynced s (change_field key value) v =
      unfold handle_field_change in
      sync_to_json-IsSynced (put key value (spread s.parsed_config)) s.rules s refl v.shown
  visual_step-IsSynced s (update_profiles next) v =
      unfold handle_update_profiles in
      sync_to_json-IsSynced (with_profiles_member json next (spread s.parsed_config)) s.rules s refl
        v.shown
  visual_step-IsSynced s (open_add_rule ext fields now) v =
      unfold handle_open_add_rule in form-IsSynced _ none true s v
  visual_step-IsSynced s (open_edit_rule rule index) v =
      unfold handle_open_edit_rule in form-IsSynced (spread rule) (some index) true s v
  visual_step-IsSynced s (change_rule_form form) v =
      form-IsSynced form s.editing_index s.is_editing_rule s v
  visual_step-IsSynced s press_cancel v =
      unfold cancel_rule in form-IsSynced s.rule_form none false s v
  visual_step-IsSynced s press_save_rule v =
      unfold handle_save_rule_entry in save_rule-IsSynced (is_blank_rule s.rule_form) s v
  visual_step-IsSynced s (delete_rule index) v =
      unfold handle_delete_rule in with_rules-IsSynced (drop_at index s.rules) s v
  visual_step-IsSynced s (press_toggle index) v =
      unfold handle_toggle_rule in
      toggle_rule-IsSynced index (toggled_rule (rule_at index s.rules)) s v

  unfoldable pub visual_run : ConfigEditor → List VisualEvent → ConfigEditor
  visual_run s [] = s
  visual_run s (e ∷ es) = visual_run (visual_step s e) es

  visual_run-IsSynced :
      (s : ConfigEditor) (es : List VisualEvent) → IsSynced s → IsSynced (visual_run s es)
  unfolding visual_run
  visual_run-IsSynced s [] v = v
  visual_run-IsSynced s (e ∷ es) v =
      visual_run-IsSynced (visual_step s e) es (visual_step-IsSynced s e v)

  synced_config :
      (s : ConfigEditor) (v : IsSynced s) → put_rules s.rules (spread s.parsed_config) ≡ v.config
  unfolding spread
  synced_config s v = ap (λ c. put_rules s.rules (spread c)) v.value ∙ v.rules

  applied :
      (minify : Json → String) (message : String → String) (ext : ExtensionItem) (s : ConfigEditor)
      → IsSynced s
      → json.parse s.config_text ≡ some s.parsed_config
      → (handle_apply_config json minify message ext s).1 ≡ some (ext.id, minify s.parsed_config)
  unfolding handle_apply_config sent_config prepared sync_to_json
  applied minify message ext s v back =
      let printed : json.stringify (obj (put_rules s.rules (spread s.parsed_config)))
          ≡ s.config_text =
        ap (λ o. json.stringify (obj o)) (synced_config s v) ∙ sym v.printed in
      rw (v.shown) (rw printed (rw back refl))

  synced_rules : (s : ConfigEditor) → IsSynced s → rules_of s.parsed_config ≡ s.rules
  synced_rules s v =
      ap rules_of (v.value ∙ sym (ap obj v.rules)) ∙ rules_of-put_rules s.rules v.config

-- Let the text, the value and the rules of an editor agree, and let any chain of events of the visual
-- mode happen. Then the text is that of the value and the rules are those of the value, and saving
-- sends the value, where `JSON.parse` reads back the text.
pub handle_apply_config-visual_run :
    (json : JsonText) (minify : Json → String) (message : String → String) (ext : ExtensionItem)
    (s : ConfigEditor) (es : List VisualEvent)
    → IsSynced json s
    → json.parse (visual_run json s es).config_text ≡ some (visual_run json s es).parsed_config
    → ((visual_run json s es).config_text ≡ json.stringify (visual_run json s es).parsed_config)
      × ((rules_of (visual_run json s es).parsed_config ≡ (visual_run json s es).rules)
          × ((handle_apply_config json minify message ext (visual_run json s es)).1
              ≡ some (ext.id, minify (visual_run json s es).parsed_config)))
handle_apply_config-visual_run json minify message ext s es v back =
    let synced = visual_run-IsSynced json s es v in
    (
      synced.printed ∙ ap json.stringify (sym synced.value),
      (
        synced_rules json (visual_run json s es) synced,
        applied json minify message ext (visual_run json s es) synced back,
      ),
    )
