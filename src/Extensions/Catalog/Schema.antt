-- ===== src/Extensions/Catalog/Schema.antt =====
-- What the catalog of extensions holds, in ui/src/pages/extensions/data/extensionProfiles.ts.
use Prim.Native.String.{String}
use mathlib.Core.Bool.{Bool, true}
use mathlib.Core.Option.{Option}
use mathlib.Core.List.{List}
use aurora_api_gateway.Prelude.Json.{Json, Fields}

-- `builtin` is set on every option that the code makes.
pub record ExtensionProfileOption : Type 0 where
  pub id : String
  pub label : String
  pub summary : String
  pub builtin : Bool
  pub params : Fields

pub data FieldKind : Type 0 where
  number text select : FieldKind

-- No field of the catalog has a placeholder.
pub record ProfileFieldSchema : Type 0 where
  pub key : String
  pub label : String
  pub kind : FieldKind
  pub default_value : Json
  pub options : Option (List (String × String))

pub data Category : Type 0 where
  performance security traffic : Category

pub record DataplaneExtensionMeta : Type 0 where
  pub key : String
  pub label : String
  pub short_label : String
  pub category : Category
  pub description : String
  pub default_profiles : List ExtensionProfileOption
  pub profile_fields : List ProfileFieldSchema

abbrev pub builtin_profile : String → String → String → Fields → ExtensionProfileOption
builtin_profile id label summary params = record {
  id = id;
  label = label;
  summary = summary;
  builtin = true;
  params = params;
}
