-- ===== src/Extensions/Editor/Schema.antt =====
-- The fields of a rule, from the schema that the controller sends: the derived values of
-- ui/src/pages/extensions/components/ExtensionConfigModal.tsx and the types of
-- ui/src/pages/extensions/components/config/types.ts.
use package.text.Mathlib.Text.{◌==◌ as str_eq}
use aurora_api_gateway.Prelude.{
  ℕ, String, Bool, true, false, ◌||◌, Option, none, some, List, [], ◌∷◌, map, any, leb, length,
  if◌then◌else◌,
}
use aurora_api_gateway.Prelude.Text.{trim, is_empty, concat, decimal}
use aurora_api_gateway.Prelude.Json.{Json, bool, num, str, arr, nil, Fields, end, field, get, put}

pub data SchemaKind : Type 0 where
  text number boolean password textarea_code list_string select key_value_map : SchemaKind

pub record SchemaField : Type 0 where
  pub key : String
  pub label : String
  pub kind : SchemaKind
  pub description : Option String
  pub required : Option Bool
  pub options : Option (List (String × Json))

pub data LayoutType : Type 0 where
  form_layout table_layout : LayoutType

-- A list that is missing counts as empty wherever the code reads it.
pub record ExtensionRenderContext : Type 0 where
  pub title : Option String
  pub description : Option String
  pub layout_type : Option LayoutType
  pub fields : List SchemaField
  pub table_columns : List (String × String)
  pub row_fields : List SchemaField

abbrev empty_context : String → String → ExtensionRenderContext
empty_context name description = record {
  title = some name;
  description = some description;
  layout_type = some form_layout;
  fields = [];
  table_columns = [];
  row_fields = [];
}

-- `schema`: what the text of the extension parses to, or an empty form. `JSON.parse`, at the type of a
-- schema, is an argument.
pub render_context :
    (String → Option ExtensionRenderContext)
    → String
    → String
    → Option String
    → ExtensionRenderContext
unfolding trim
render_context parse name description none = empty_context name description
render_context parse name description (some ui_schema) =
    if is_empty ui_schema || str_eq (trim ui_schema) "{}"
    then empty_context name description
    else elim (parse ui_schema) [ none ↦ empty_context name description | some schema ↦ schema ]

-- `hasTable`, for the rules that the editor holds, and `hasFields`.
unfoldable pub has_table : ExtensionRenderContext → List Json → Bool
has_table schema rules =
    elim schema.layout_type [ some table_layout ↦ true | _ ↦ false ]
    || leb 1 (length schema.table_columns)
    || leb 1 (length rules)

unfoldable pub has_fields : ExtensionRenderContext → Bool
has_fields schema = leb 1 (length schema.fields)

abbrev simple_field : String → String → SchemaField
simple_field key label = record {
  key = key;
  label = label;
  kind = text;
  description = none;
  required = none;
  options = none;
}

abbrev pub action_options : List (String × Json)
action_options =
    ("Block (403 Forbidden)", str "block")
    ∷ ("Throttle (429 Too Many Requests)", str "throttle")
    ∷ ("Allow (Bypass / Pass)", str "allow")
    ∷ []

abbrev number_keys : List String
number_keys =
    "rate" ∷ "burst" ∷ "period_secs" ∷ "status_code" ∷ "timeout_ms" ∷ "max_body_bytes" ∷ []

abbrev action_column_options : List (String × Json)
action_column_options =
    ("Block (403 Forbidden)", str "block")
    ∷ ("Throttle (429 Too Many Requests)", str "throttle")
    ∷ ("Allow (Bypass / Pass)", str "allow")
    ∷ ("Challenge (CAPTCHA)", str "challenge")
    ∷ []

column_kind : String → SchemaKind
column_kind key =
    if str_eq key "action"
    then select
    else if str_eq key "enabled"
    then boolean
    else if any (λ k. str_eq k key) number_keys
    then number
    else text

column_field : String × String → SchemaField
unfolding column_kind
column_field (key, label) = record {
  key = key;
  label = label;
  kind = column_kind key;
  description = some (concat ("Configure " ∷ label ∷ []));
  required = none;
  options = if str_eq key "action" then some action_column_options else none;
}

abbrev default_row_fields : List SchemaField
default_row_fields =
    simple_field "name" "Rule Name"
    ∷ record (simple_field "match_value" "Route Path / Match Value") {
      description = some "Target path prefix or pattern (e.g. /api/*)";
    }
    ∷ record (simple_field "action" "Policy Action") {
      kind = select;
      options = some action_options;
    }
    ∷ []

-- `effectiveRowFields`
pub effective_row_fields : ExtensionRenderContext → List SchemaField
unfolding column_field
effective_row_fields schema = elim schema.row_fields [
  | [] ↦ elim schema.table_columns [ [] ↦ default_row_fields | c ∷ cs ↦ map column_field (c ∷ cs) ]
  | f ∷ fs ↦ f ∷ fs
]

first_option : Option (List (String × Json)) → Json
first_option (some ((label, value) ∷ more)) = value
first_option _ = str ""

initial_number : String → Json
initial_number key =
    if str_eq key "period_secs" then num "1" else if str_eq key "rate" then num "100" else num "0"

-- The value that a new rule has for a field.
initial_value : SchemaField → SchemaKind → Json
unfolding initial_number first_option
initial_value f boolean = bool true
initial_value f number = initial_number f.key
initial_value f select = first_option f.options
initial_value f list_string = arr nil
initial_value f _ = str ""

put_missing : String → Json → Option Json → Fields → Fields
unfolding put
put_missing key v none rule = put key v rule
put_missing key v (some w) rule = rule

fill_rule : Fields → List SchemaField → Fields
unfolding put_missing initial_value get
fill_rule rule [] = rule
fill_rule rule (f ∷ fs) =
    fill_rule (put_missing f.key (initial_value f f.kind) (get f.key rule) rule) fs

-- The form of a new rule. The time is `Date.now()`.
unfoldable pub initial_rule : String → ℕ → List SchemaField → Fields
unfolding fill_rule decimal
initial_rule id now fields =
    fill_rule
      (field "id" (str (concat (id ∷ "-rule-" ∷ decimal now ∷ [])))
        (field "name" (str "") (field "enabled" (bool true) end)))
      fields
