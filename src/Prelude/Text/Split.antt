-- ===== src/Prelude/Text/Split.antt =====
-- `s.split(/[...]/)` at the characters of a class, and what cutting, trimming and changing case leave
-- out of a text.
use Prim.Native.Char.{Char, code}
use Prim.Native.Nat.{ℕ}
use Prim.Native.String.{String, [], ◌∷◌, ◌++◌}
use Prim.Native.String.append
use mathlib.Core.Path.{◌≡◌, refl, ap}
use mathlib.Core.Logic.{inl, inr}
use mathlib.Core.Bool.{Bool, true, false, not, ◌&&◌}
use mathlib.Core.List.{List}
use native.Mathlib.Omega.{arith}
use aurora_api_gateway.Prelude.Lists.{All}
use aurora_api_gateway.Prelude.Tests.{Bool-cases, ◌==◌, if◌then◌else◌}
use aurora_api_gateway.Prelude.Text.{
  is_space, is_empty, trim_start, keep_unless_last, trim_end, trim, translate, lower_char,
  to_lower_case,
}

-- A character in front of the first part.
abbrev pub push_front : Char → List String → List String
push_front c List.[] = List.◌∷◌ (c ∷ []) List.[]
push_front c (List.◌∷◌ p ps) = List.◌∷◌ (c ∷ p) ps

module _ (test : ℕ → Bool) where
  unfoldable pub split_on : String → List String
  split_on [] = List.◌∷◌ "" List.[]
  split_on (c ∷ s) =
      let rest = split_on s in if test (code c) then List.◌∷◌ "" rest else push_front c rest

  -- No character of the text is in the class.
  abbrev pub lacks : String → Bool
  lacks [] = true
  lacks (c ∷ s) = not (test (code c)) && lacks s

  abbrev pub AllLack : List String → Type 0
  AllLack = All (λ p. lacks p ≡ true)

  push_front-AllLack :
      (c : Char) (ps : List String) → test (code c) ≡ false → AllLack ps → AllLack (push_front c ps)
  push_front-AllLack c List.[] out h = (rw out refl, tt)
  push_front-AllLack c (List.◌∷◌ p ps) out (h, hs) = (rw out h, hs)

  pub split_on-AllLack : (s : String) → AllLack (split_on s)
  unfolding split_on
  split_on-AllLack [] = (refl, tt)
  split_on-AllLack (c ∷ s) = elim (Bool-cases (test (code c))) [
    | inl cut ↦ rw cut (refl, split_on-AllLack s)
    | inr out ↦ rw out (push_front-AllLack c (split_on s) out (split_on-AllLack s))
  ]

  pub split_on_one : (p : String) → lacks p ≡ true → split_on p ≡ List.◌∷◌ p List.[]
  unfolding split_on
  split_on_one [] h = refl
  split_on_one (c ∷ s) h = elim (Bool-cases (test (code c))) [
    | inl cut ↦ ground (arith, cut, h)
    | inr out ↦
        let h2 : lacks s ≡ true = ground (arith, out, h) in
        rw out (ap (push_front c) (split_on_one s h2))
  ]

  pub split_on-append :
      (p : String) (c : Char) (s : String)
      → lacks p ≡ true
      → test (code c) ≡ true
      → split_on (p ++ (c ∷ s)) ≡ List.◌∷◌ p (split_on s)
  unfolding split_on
  split_on-append [] c s h cut = rw (append.nil (c ∷ s), cut) refl
  split_on-append (d ∷ p) c s h cut = elim (Bool-cases (test (code d))) [
    | inl here ↦ ground (arith, here, h)
    | inr out ↦
        let h2 : lacks p ≡ true = ground (arith, out, h) in
        rw (append.cons d p (c ∷ s), out) (ap (push_front d) (split_on-append p c s h2 cut))
  ]

  lacks-trim_start : (s : String) → lacks s ≡ true → lacks (trim_start s) ≡ true
  unfolding trim_start
  lacks-trim_start [] h = refl
  lacks-trim_start (c ∷ s) h = elim (Bool-cases (is_space (code c))) [
    | inl space ↦ let h2 : lacks s ≡ true = ground (arith, h) in rw space (lacks-trim_start s h2)
    | inr clean ↦ rw clean h
  ]

  lacks-keep : (c : Char) (s : String) → lacks (c ∷ s) ≡ true → lacks (keep_unless_last c s) ≡ true
  unfolding keep_unless_last
  lacks-keep c s h = elim (Bool-cases (is_space (code c) && is_empty s)) [
    | inl drop ↦ rw drop refl
    | inr stay ↦ rw stay h
  ]

  lacks-trim_end : (s : String) → lacks s ≡ true → lacks (trim_end s) ≡ true
  unfolding trim_end
  lacks-trim_end [] h = refl
  lacks-trim_end (c ∷ s) h =
      let h2 : lacks s ≡ true = ground (arith, h) in
      let tail = lacks-trim_end s h2 in lacks-keep c (trim_end s) (ground (arith, h, tail))

  pub lacks-trim : (s : String) → lacks s ≡ true → lacks (trim s) ≡ true
  unfolding trim
  lacks-trim s h = lacks-trim_end (trim_start s) (lacks-trim_start s h)

  lacks-translate :
      (us ls : String) (c : Char)
      → lacks ls ≡ true
      → test (code c) ≡ false
      → test (code (translate us ls c)) ≡ false
  unfolding translate
  lacks-translate [] ls c hl out = out
  lacks-translate (u ∷ us) [] c hl out = out
  lacks-translate (u ∷ us) (l ∷ ls) c hl out = elim (Bool-cases (code u == code c)) [
    | inl e ↦ rw e (ground (arith, hl))
    | inr e ↦ let h2 : lacks ls ≡ true = ground (arith, hl) in rw e (lacks-translate us ls c h2 out)
  ]

  pub lacks-to_lower_case :
      (s : String)
      → lacks "abcdefghijklmnopqrstuvwxyz" ≡ true
      → lacks s ≡ true
      → lacks (to_lower_case s) ≡ true
  unfolding to_lower_case lower_char
  lacks-to_lower_case [] letters h = refl
  lacks-to_lower_case (c ∷ s) letters h =
      let out : test (code c) ≡ false = ground (arith, h) in
      let h2 : lacks s ≡ true = ground (arith, h) in
      rw (lacks-translate "ABCDEFGHIJKLMNOPQRSTUVWXYZ" "abcdefghijklmnopqrstuvwxyz" c letters out)
        (lacks-to_lower_case s letters h2)
