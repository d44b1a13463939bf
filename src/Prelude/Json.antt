-- ===== src/Prelude/Json.antt =====
-- JSON values as the console handles them. A number is kept as the text that `String` prints for
-- it. The members of an object stand in the order in which they were added; keys that are array
-- indices, which JavaScript moves to the front, are not treated apart.
pub mod Laws
use Prim.Native.String.{String}
use text.Mathlib.Text.{◌==◌ as str_eq}
use mathlib.Core.Bool.{Bool, true, false, not, ◌||◌}
use mathlib.Core.List.{List, [], ◌∷◌}
use mathlib.Core.Option.{Option, none, some}
use aurora_api_gateway.Prelude.Tests.{if◌then◌else◌}

mutual
  pub data Json : Type 0 where
    null : Json
    bool : Bool → Json
    num : String → Json
    str : String → Json
    arr : Items → Json
    obj : Fields → Json

  pub data Items : Type 0 where
    nil : Items
    cons : Json → Items → Items

  pub data Fields : Type 0 where
    end : Fields
    field : String → Json → Fields → Fields

-- `o[k]`: `none` is `undefined`.
unfoldable pub get : String → Fields → Option Json
get k end = none
get k (field j v o) = if str_eq j k then some v else get k o

-- `o[k] = v`: in place, or as the last member.
unfoldable pub put : String → Json → Fields → Fields
put k v end = field k v end
put k v (field j w o) = if str_eq j k then field k v o else field j w (put k v o)

-- `delete o[k]`
unfoldable pub remove : String → Fields → Fields
remove k end = end
remove k (field j v o) = if str_eq j k then remove k o else field j v (remove k o)

-- `for (const [k, v] of Object.entries(more)) o[k] = v`
unfoldable pub assign : Fields → Fields → Fields
unfolding put
assign o end = o
assign o (field k v more) = assign (put k v o) more

-- The elements of an array as a list, and back.
unfoldable pub elements : Items → List Json
elements nil = []
elements (cons v vs) = v ∷ elements vs

unfoldable pub items_of : List Json → Items
items_of [] = nil
items_of (v ∷ vs) = cons v (items_of vs)

-- The value counts as true: `!!v`.
abbrev pub truthy : Option Json → Bool
truthy none = false
truthy (some null) = false
truthy (some (bool b)) = b
truthy (some (num t)) = not (str_eq t "0" || str_eq t "NaN")
truthy (some (str String.[])) = false
truthy (some (str (String.◌∷◌ c s))) = true
truthy (some (arr vs)) = true
truthy (some (obj o)) = true

-- `JSON.parse`, which throws on what is no JSON text, and `JSON.stringify`, whose indentation is not
-- told apart. The parts of the console
-- that call them take them as an argument.
pub record JsonText : Type 0 where
  pub parse : String → Option Json
  pub stringify : Json → String
