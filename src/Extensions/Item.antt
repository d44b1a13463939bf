-- ===== src/Extensions/Item.antt =====
-- An extension as the controller lists it, in ui/src/pages/extensions/types.ts. A member that may be
-- missing is an `Option`.
use aurora_api_gateway.Prelude.{ℕ, String, Bool, Option, List}

pub record ExtensionItem : Type 0 where
  pub id : String
  pub name : String
  pub category : String
  pub description : String
  pub manifest_key : Option String
  pub manifest_version : Option ℕ
  pub manifest_digest : Option String
  pub version : Option String
  pub enabled : Bool
  pub config_json : String
  pub config_schema_json : Option String
  pub ui_schema_json : Option String
  pub supported : Option Bool
  pub schema_json : Option String
  pub is_builtin : Bool
  pub tags : Option (List String)
  pub default_config : Option String
  pub created_at : Option String
  pub updated_at : Option String
