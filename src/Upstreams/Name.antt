-- ===== src/Upstreams/Name.antt =====
-- The name under which an upstream is saved, in ui/src/pages/upstreams/create/page.tsx and
-- ui/src/pages/upstreams/edit/page.tsx.
pub mod Laws
mod Tests
use Prim.Native.Char.{Char, code}
use Prim.Native.String.{String, [], ◌∷◌, char_at}
use mathlib.Core.Bool.{Bool, true, false}
use aurora_api_gateway.Prelude.{if◌then◌else◌}
use aurora_api_gateway.Prelude.Text.{is_space, trim, to_lower_case}

abbrev pub hyphen : Char
hyphen = char_at "-" 0

-- The rest of a text behind a space, or behind another character: a run of spaces makes one hyphen.
pub hyphens : Bool → String → String
unfolding is_space
hyphens after [] = []
hyphens after (c ∷ s) =
    let rest = hyphens (is_space (code c)) s in
    if is_space (code c) then (if after then rest else hyphen ∷ rest) else c ∷ rest

-- `name.trim().toLowerCase().replace(/\s+/g, '-')`
unfoldable pub saved_name : String → String
unfolding hyphens trim to_lower_case
saved_name name = hyphens false (to_lower_case (trim name))
