-- ===== src/Extensions/Editor/Modes.antt =====
-- Changing between the visual mode and the text.
use aurora_api_gateway.Prelude.{String, none, some, ◌≡◌, refl, ap, ◌∙◌}
use aurora_api_gateway.Prelude.Json.{
  Json, obj, arr, Items, cons, Fields, get, put, elements, JsonText,
}
use aurora_api_gateway.Prelude.Json.Laws.{put_same, remove_absent, items_of-elements}
use aurora_api_gateway.Extensions.Editor.{
  ConfigEditor, visual, text_view, spread, rules_of, put_rules, sync_to_json, sync_from_json,
  read_text, entered, handle_mode_change, handle_format, laid_out, open_editor, opened,
}
use aurora_api_gateway.Prelude.Text.{or_text}
use aurora_api_gateway.Extensions.Item.{ExtensionItem}
use aurora_api_gateway.Extensions.Editor.Synced.{IsSynced}

-- The rules of the configuration are missing, or a list that is not empty.
pub data IsListed (o : Fields) : Type 0 where
  unlisted : get "rules" o ≡ none → IsListed o
  listed : (v : Json) (vs : Items) → get "rules" o ≡ some (arr (cons v vs)) → IsListed o

pub put_rules-rules_of : (o : Fields) → IsListed o → put_rules (rules_of (obj o)) o ≡ o
unfolding rules_of put_rules elements
put_rules-rules_of o (unlisted h) = rw h (remove_absent "rules" o h)
put_rules-rules_of o (listed v vs h) = rw h (
    ap (λ ws. put "rules" (arr ws) o) (items_of-elements (cons v vs))
    ∙ put_same "rules" (arr (cons v vs)) o h)

-- Where the text is a configuration whose rules are missing or a list that is not empty, going to the
-- visual mode and back does to the text what the button does that lays it out.
pub handle_mode_change-handle_format :
    (json : JsonText) (message : String → String) (s : ConfigEditor) (o : Fields)
    → json.parse s.config_text ≡ some (obj o)
    → IsListed o
    → (handle_mode_change json message text_view
        (handle_mode_change json message visual s)).config_text
      ≡ (handle_format json message s).config_text
unfolding handle_mode_change sync_from_json read_text entered sync_to_json handle_format laid_out
    spread
handle_mode_change-handle_format json message s o h listed_rules =
    rw h (ap (λ c. json.stringify (obj c)) (put_rules-rules_of o listed_rules))

-- An extension whose configuration is an object opens with the text, the value and the rules in
-- agreement.
open_editor-IsSynced :
    (json : JsonText) (ext : ExtensionItem) (s : ConfigEditor) (o : Fields)
    → json.parse (or_text ext.config_json "{}") ≡ some (obj o)
    → IsListed o
    → IsSynced json (open_editor json ext s)
unfolding open_editor opened
open_editor-IsSynced json ext s o h listed_rules = rw h record {
  config = o;
  value = refl;
  printed = refl;
  rules = put_rules-rules_of o listed_rules;
  shown = refl;
}
