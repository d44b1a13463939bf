-- ===== src/Prelude/Text/Laws.antt =====
-- Trimming and changing case.
use Prim.Native.Char.{Char, code}
use Prim.Native.String.{String, [], ◌∷◌}
use mathlib.Core.Path.{◌≡◌, refl, sym, ap, ◌∙◌}
use mathlib.Core.Logic.{◌⊎◌, inl, inr}
use mathlib.Core.Bool.{false, ◌&&◌}
use aurora_api_gateway.Prelude.Tests.{Bool-cases, ◌==◌, ==_iff}
use aurora_api_gateway.Prelude.Text.{
  is_space, is_empty, trim_start, keep_unless_last, trim_end, trim, or_text, translate, lower_char,
  to_lower_case,
}

-- No space at the front.
abbrev StartsClean : String → Type 0
StartsClean [] = Unit
StartsClean (c ∷ s) = is_space (code c) ≡ false

trim_start-StartsClean : (s : String) → StartsClean (trim_start s)
unfolding trim_start
trim_start-StartsClean [] = tt
trim_start-StartsClean (c ∷ s) = elim (Bool-cases (is_space (code c))) [
  | inl space ↦ rw space (trim_start-StartsClean s)
  | inr clean ↦ rw clean clean
]

trim_start_of_StartsClean : (s : String) → StartsClean s → trim_start s ≡ s
unfolding trim_start
trim_start_of_StartsClean [] h = refl
trim_start_of_StartsClean (c ∷ s) h = rw h

trim_end-StartsClean : (s : String) → StartsClean s → StartsClean (trim_end s)
unfolding trim_end keep_unless_last
trim_end-StartsClean [] h = tt
trim_end-StartsClean (c ∷ s) h = rw h h

trim_end_idem : (s : String) → trim_end (trim_end s) ≡ trim_end s
unfolding trim_end keep_unless_last
trim_end_idem [] = refl
trim_end_idem (c ∷ s) = elim (Bool-cases (is_space (code c) && is_empty (trim_end s))) [
  | inl drop ↦ rw drop
  | inr stay ↦ rw stay (rw (trim_end_idem s) (rw stay))
]

-- A trimmed text has nothing left to trim.
pub trim_idem : (s : String) → trim (trim s) ≡ trim s
unfolding trim
trim_idem s =
    ap trim_end (
      trim_start_of_StartsClean (trim_end (trim_start s))
        (trim_end-StartsClean (trim_start s) (trim_start-StartsClean s)))
    ∙ trim_end_idem (trim_start s)

-- A fallback that is not empty leaves no empty text.
pub is_empty-or_text : (s t : String) → is_empty t ≡ false → is_empty (or_text s t) ≡ false
is_empty-or_text [] t h = h
is_empty-or_text (c ∷ s) t h = refl

pub or_text_of_full : (s t : String) → is_empty s ≡ false → or_text s t ≡ s
or_text_of_full s t h = rw h

pub or_text-empty : (s : String) → or_text s "" ≡ s
or_text-empty [] = refl
or_text-empty (c ∷ s) = refl

-- A text that trims to itself keeps doing so behind a fallback that does.
pub trim-or_text : (s t : String) → trim s ≡ s → trim t ≡ t → trim (or_text s t) ≡ or_text s t
trim-or_text s t p q = elim (Bool-cases (is_empty s)) [ inl e ↦ rw e q | inr e ↦ rw e p ]

pub trim_end_of_trimmed : (s : String) → trim s ≡ s → trim_end s ≡ s
unfolding trim
trim_end_of_trimmed s h = ap trim_end (sym h) ∙ trim_end_idem (trim_start s) ∙ h

abbrev pub HasNoSpace : String → Type 0
HasNoSpace [] = Unit
HasNoSpace (c ∷ s) = (is_space (code c) ≡ false) × HasNoSpace s

trim_end_of_HasNoSpace : (s : String) → HasNoSpace s → trim_end s ≡ s
unfolding trim_end keep_unless_last
trim_end_of_HasNoSpace [] h = refl
trim_end_of_HasNoSpace (c ∷ s) (other, h) = rw other (ap (λ t. c ∷ t) (trim_end_of_HasNoSpace s h))

pub trim_of_HasNoSpace : (s : String) → HasNoSpace s → trim s ≡ s
unfolding trim trim_start
trim_of_HasNoSpace [] h = trim_end_of_HasNoSpace [] tt
trim_of_HasNoSpace (c ∷ s) (other, h) = rw other (trim_end_of_HasNoSpace (c ∷ s) (other, h))

-- The characters of the text are in lower case.
abbrev pub IsLower : String → Type 0
IsLower [] = Unit
IsLower (c ∷ s) = (lower_char c ≡ c) × IsLower s

-- A translation changes nothing, or gives a letter of the second text.
translate_cases :
    (us ls : String) (c : Char)
    → IsLower ls
    → (translate us ls c ≡ c) ⊎ (lower_char (translate us ls c) ≡ translate us ls c)
unfolding translate
translate_cases [] ls c h = inl refl
translate_cases (u ∷ us) [] c h = inl refl
translate_cases (u ∷ us) (l ∷ ls) c (fixed, h) = elim (Bool-cases (code u == code c)) [
  | inl e ↦ rw e (inr fixed)
  | inr e ↦ rw e (translate_cases us ls c h)
]

letters-IsLower : IsLower "abcdefghijklmnopqrstuvwxyz"
unfolding lower_char translate
letters-IsLower = (
  refl,
  (
    refl,
    (
      refl,
      (
        refl,
        (
          refl,
          (
            refl,
            (
              refl,
              (
                refl,
                (
                  refl,
                  (
                    refl,
                    (
                      refl,
                      (
                        refl,
                        (
                          refl,
                          (
                            refl,
                            (
                              refl,
                              (
                                refl,
                                (
                                  refl,
                                  (
                                    refl,
                                    (
                                      refl,
                                      (refl, (refl, (refl, (refl, (refl, (refl, (refl, tt))))))),
                                    ),
                                  ),
                                ),
                              ),
                            ),
                          ),
                        ),
                      ),
                    ),
                  ),
                ),
              ),
            ),
          ),
        ),
      ),
    ),
  ),
)

lower_char_idem : (c : Char) → lower_char (lower_char c) ≡ lower_char c
unfolding lower_char
lower_char_idem c =
    elim (translate_cases "ABCDEFGHIJKLMNOPQRSTUVWXYZ" "abcdefghijklmnopqrstuvwxyz" c
      letters-IsLower) [
        | inl same ↦ ap (translate "ABCDEFGHIJKLMNOPQRSTUVWXYZ" "abcdefghijklmnopqrstuvwxyz") same
        | inr fixed ↦ fixed
      ]

pub to_lower_case-IsLower : (s : String) → IsLower (to_lower_case s)
unfolding to_lower_case
to_lower_case-IsLower [] = tt
to_lower_case-IsLower (c ∷ s) = (lower_char_idem c, to_lower_case-IsLower s)

pub to_lower_case_of_IsLower : (s : String) → IsLower s → to_lower_case s ≡ s
unfolding to_lower_case
to_lower_case_of_IsLower [] h = refl
to_lower_case_of_IsLower (c ∷ s) (fixed, h) = λ i. fixed i ∷ to_lower_case_of_IsLower s h i

-- Changing case neither makes nor removes a space.
is_space-translate :
    (us ls : String) (c : Char)
    → HasNoSpace us
    → HasNoSpace ls
    → is_space (code (translate us ls c)) ≡ is_space (code c)
unfolding translate
is_space-translate [] ls c hu hl = refl
is_space-translate (u ∷ us) [] c hu hl = refl
is_space-translate (u ∷ us) (l ∷ ls) c (fu, hu) (fl, hl) = elim (Bool-cases (code u == code c)) [
  | inl e ↦
      let same : code u ≡ code c = (==_iff (code u) (code c)).0 e in
      rw e (fl ∙ sym (ap is_space (sym same) ∙ fu))
  | inr e ↦ rw e (is_space-translate us ls c hu hl)
]

capitals-HasNoSpace : HasNoSpace "ABCDEFGHIJKLMNOPQRSTUVWXYZ"
unfolding is_space
capitals-HasNoSpace = (
  refl,
  (
    refl,
    (
      refl,
      (
        refl,
        (
          refl,
          (
            refl,
            (
              refl,
              (
                refl,
                (
                  refl,
                  (
                    refl,
                    (
                      refl,
                      (
                        refl,
                        (
                          refl,
                          (
                            refl,
                            (
                              refl,
                              (
                                refl,
                                (
                                  refl,
                                  (
                                    refl,
                                    (
                                      refl,
                                      (refl, (refl, (refl, (refl, (refl, (refl, (refl, tt))))))),
                                    ),
                                  ),
                                ),
                              ),
                            ),
                          ),
                        ),
                      ),
                    ),
                  ),
                ),
              ),
            ),
          ),
        ),
      ),
    ),
  ),
)

letters-HasNoSpace : HasNoSpace "abcdefghijklmnopqrstuvwxyz"
unfolding is_space
letters-HasNoSpace = (
  refl,
  (
    refl,
    (
      refl,
      (
        refl,
        (
          refl,
          (
            refl,
            (
              refl,
              (
                refl,
                (
                  refl,
                  (
                    refl,
                    (
                      refl,
                      (
                        refl,
                        (
                          refl,
                          (
                            refl,
                            (
                              refl,
                              (
                                refl,
                                (
                                  refl,
                                  (
                                    refl,
                                    (
                                      refl,
                                      (refl, (refl, (refl, (refl, (refl, (refl, (refl, tt))))))),
                                    ),
                                  ),
                                ),
                              ),
                            ),
                          ),
                        ),
                      ),
                    ),
                  ),
                ),
              ),
            ),
          ),
        ),
      ),
    ),
  ),
)

is_space-lower_char : (c : Char) → is_space (code (lower_char c)) ≡ is_space (code c)
unfolding lower_char
is_space-lower_char c =
    is_space-translate "ABCDEFGHIJKLMNOPQRSTUVWXYZ" "abcdefghijklmnopqrstuvwxyz" c
      capitals-HasNoSpace letters-HasNoSpace

pub is_empty-to_lower_case : (s : String) → is_empty (to_lower_case s) ≡ is_empty s
unfolding to_lower_case
is_empty-to_lower_case [] = refl
is_empty-to_lower_case (c ∷ s) = refl

trim_start-to_lower_case :
    (s : String) → trim_start (to_lower_case s) ≡ to_lower_case (trim_start s)
unfolding trim_start to_lower_case
trim_start-to_lower_case [] = refl
trim_start-to_lower_case (c ∷ s) = elim (Bool-cases (is_space (code c))) [
  | inl e ↦ rw (is_space-lower_char c) (rw e (trim_start-to_lower_case s))
  | inr e ↦ rw (is_space-lower_char c) (rw e refl)
]

keep_unless_last-to_lower_case :
    (c : Char) (s : String)
    → keep_unless_last (lower_char c) (to_lower_case s) ≡ to_lower_case (keep_unless_last c s)
unfolding keep_unless_last to_lower_case
keep_unless_last-to_lower_case c s = elim (Bool-cases (is_space (code c) && is_empty s)) [
  | inl e ↦ rw (is_space-lower_char c, is_empty-to_lower_case s) (rw e refl)
  | inr e ↦ rw (is_space-lower_char c, is_empty-to_lower_case s) (rw e refl)
]

trim_end-to_lower_case : (s : String) → trim_end (to_lower_case s) ≡ to_lower_case (trim_end s)
unfolding trim_end to_lower_case
trim_end-to_lower_case [] = refl
trim_end-to_lower_case (c ∷ s) =
    ap (keep_unless_last (lower_char c)) (trim_end-to_lower_case s)
    ∙ keep_unless_last-to_lower_case c (trim_end s)

pub trim-to_lower_case : (s : String) → trim (to_lower_case s) ≡ to_lower_case (trim s)
unfolding trim
trim-to_lower_case s =
    ap trim_end (trim_start-to_lower_case s) ∙ trim_end-to_lower_case (trim_start s)
