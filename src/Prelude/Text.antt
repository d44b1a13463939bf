-- ===== src/Prelude/Text.antt =====
-- The string methods that the console calls, over the native texts. A text is a list of Unicode
-- scalar values, and letters change case as in ASCII.
pub mod Laws
pub mod Split
use Prim.Native.Char.{Char, code}
use Prim.Native.Nat.{ℕ, zero, suc, ◌/◌, ◌%◌}
use Prim.Native.String.{String, [], ◌∷◌, ◌++◌, char_at}
use text.Mathlib.Text.{◌==◌ as str_eq}
use mathlib.Core.List.{List}
use aurora_api_gateway.Prelude.Tests.{◌==◌, leb, if◌then◌else◌}
use mathlib.Core.Bool.{Bool, true, false, ◌&&◌, ◌||◌}

-- The white space and line terminators of ECMAScript, which `trim` removes and `\s` matches.
unfoldable pub is_space : ℕ → Bool
is_space c =
    (leb 9 c && leb c 13)
    || c == 32
    || c == 160
    || c == 5760
    || (leb 8192 c && leb c 8202)
    || c == 8232
    || c == 8233
    || c == 8239
    || c == 8287
    || c == 12288
    || c == 65279

-- `!s`
abbrev pub is_empty : String → Bool
is_empty [] = true
is_empty (c ∷ s) = false

trim_start : String → String
trim_start [] = []
trim_start (c ∷ s) = if is_space (code c) then trim_start s else c ∷ s

-- A character in front of a trimmed rest: kept unless it is a space with nothing behind it.
keep_unless_last : Char → String → String
keep_unless_last c rest = if is_space (code c) && is_empty rest then [] else c ∷ rest

pub trim_end : String → String
trim_end [] = []
trim_end (c ∷ s) = keep_unless_last c (trim_end s)

-- `s.trim()`
unfoldable pub trim : String → String
unfolding is_space trim_start keep_unless_last trim_end
trim s = trim_end (trim_start s)

-- The letter of the second text that stands where the first has the character.
unfoldable pub translate : String → String → Char → Char
translate (u ∷ us) (l ∷ ls) c = if code u == code c then l else translate us ls c
translate _ _ c = c

unfoldable pub lower_char : Char → Char
lower_char = translate "ABCDEFGHIJKLMNOPQRSTUVWXYZ" "abcdefghijklmnopqrstuvwxyz"

-- `s.toLowerCase()`
unfoldable pub to_lower_case : String → String
unfolding lower_char translate
to_lower_case [] = []
to_lower_case (c ∷ s) = lower_char c ∷ to_lower_case s

-- `s || fallback`
abbrev pub or_text : String → String → String
or_text s fallback = if is_empty s then fallback else s

digit : ℕ → Char
digit n = char_at "0123456789" n

decimal_from : ℕ → ℕ → String → String
decimal_from zero n acc = acc
decimal_from (suc fuel) n acc = elim (n / 10 == 0) [
  | true ↦ digit (n % 10) ∷ acc
  | false ↦ decimal_from fuel (n / 10) (digit (n % 10) ∷ acc)
]

-- `String(n)` of a natural number; each round divides by ten, so `n + 1` rounds are enough.
unfoldable pub decimal : ℕ → String
unfolding digit decimal_from
decimal n = decimal_from (suc n) n ""

-- A template literal, of its parts.
abbrev pub concat : List String → String
concat List.[] = ""
concat (List.◌∷◌ s ss) = s ++ concat ss

-- `ss.join(sep)`
unfoldable pub join : String → List String → String
join sep List.[] = ""
join sep (List.◌∷◌ s List.[]) = s
join sep (List.◌∷◌ s (List.◌∷◌ t ts)) = s ++ (sep ++ join sep (List.◌∷◌ t ts))

abbrev pub slash : Char
slash = char_at "/" 0

-- `s.startsWith('/')`
unfoldable pub starts_with_slash : String → Bool
starts_with_slash [] = false
starts_with_slash (c ∷ s) = code c == 47

-- `s.startsWith(prefix)`
pub starts_with : String → String → Bool
starts_with s [] = true
starts_with [] (p ∷ ps) = false
starts_with (c ∷ s) (p ∷ ps) = code c == code p && starts_with s ps

-- `s.includes(part)`
unfoldable pub includes : String → String → Bool
unfolding starts_with
includes [] part = starts_with [] part
includes (c ∷ s) part = starts_with (c ∷ s) part || includes s part

-- `items.includes(s)`
unfoldable pub holds : List String → String → Bool
holds List.[] s = false
holds (List.◌∷◌ t ts) s = str_eq t s || holds ts s

-- `s.length`, in characters.
unfoldable pub char_count : String → ℕ
char_count [] = 0
char_count (c ∷ s) = suc (char_count s)
