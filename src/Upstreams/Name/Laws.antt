-- ===== src/Upstreams/Name/Laws.antt =====
-- What the saved names look like.
use Prim.Native.Char.{code}
use Prim.Native.String.{String, [], ◌∷◌}
use mathlib.Core.Path.{◌≡◌, refl, ap, ◌∙◌}
use mathlib.Core.Logic.{inl, inr}
use mathlib.Core.Bool.{Bool, true, false}
use aurora_api_gateway.Prelude.{Bool-cases}
use aurora_api_gateway.Prelude.Text.{is_space, is_empty, trim, to_lower_case, lower_char, translate}
use aurora_api_gateway.Prelude.Text.Laws.{
  is_empty-to_lower_case, trim_of_HasNoSpace, HasNoSpace, IsLower, to_lower_case-IsLower,
  to_lower_case_of_IsLower,
}
use aurora_api_gateway.Upstreams.Name.{hyphens, saved_name}

hyphens-HasNoSpace : (after : Bool) (s : String) → HasNoSpace (hyphens after s)
unfolding hyphens
hyphens-HasNoSpace after [] = tt
hyphens-HasNoSpace true (c ∷ s) = elim (Bool-cases (is_space (code c))) [
  | inl space ↦ rw space (hyphens-HasNoSpace true s)
  | inr other ↦ rw other (other, hyphens-HasNoSpace false s)
]
hyphens-HasNoSpace false (c ∷ s) = elim (Bool-cases (is_space (code c))) [
  | inl space ↦ rw space (unfold is_space in refl, hyphens-HasNoSpace true s)
  | inr other ↦ rw other (other, hyphens-HasNoSpace false s)
]

hyphens_of_HasNoSpace : (after : Bool) (s : String) → HasNoSpace s → hyphens after s ≡ s
unfolding hyphens
hyphens_of_HasNoSpace after [] h = refl
hyphens_of_HasNoSpace after (c ∷ s) (other, h) =
    rw other (ap (λ t. c ∷ t) (hyphens_of_HasNoSpace false s h))

is_empty-hyphens : (s : String) → is_empty (hyphens false s) ≡ is_empty s
unfolding hyphens
is_empty-hyphens [] = refl
is_empty-hyphens (c ∷ s) = elim (Bool-cases (is_space (code c))) [
  | inl space ↦ rw space refl
  | inr other ↦ rw other refl
]

hyphens-IsLower : (after : Bool) (s : String) → IsLower s → IsLower (hyphens after s)
unfolding hyphens
hyphens-IsLower after [] h = tt
hyphens-IsLower true (c ∷ s) (fixed, h) = elim (Bool-cases (is_space (code c))) [
  | inl space ↦ rw space (hyphens-IsLower true s h)
  | inr other ↦ rw other (fixed, hyphens-IsLower false s h)
]
hyphens-IsLower false (c ∷ s) (fixed, h) = elim (Bool-cases (is_space (code c))) [
  | inl space ↦ rw space (unfold lower_char translate in refl, hyphens-IsLower true s h)
  | inr other ↦ rw other (fixed, hyphens-IsLower false s h)
]

-- A saved name has no spaces, is empty only for a blank name, and is saved again as it is.
pub saved_name_lem :
    (name : String)
    → HasNoSpace (saved_name name)
      × ((is_empty (saved_name name) ≡ is_empty (trim name))
          × (saved_name (saved_name name) ≡ saved_name name))
unfolding saved_name
saved_name_lem name =
    let clean : HasNoSpace (hyphens false (to_lower_case (trim name))) =
      hyphens-HasNoSpace false (to_lower_case (trim name)) in
    (
      clean,
      (
        is_empty-hyphens (to_lower_case (trim name)) ∙ is_empty-to_lower_case (trim name),
        ap (λ t. hyphens false (to_lower_case t)) (trim_of_HasNoSpace _ clean)
            ∙ (ap (hyphens false) (
                  to_lower_case_of_IsLower _
                    (hyphens-IsLower false _ (to_lower_case-IsLower (trim name))))
                ∙ hyphens_of_HasNoSpace false _ clean),
      ),
    )
