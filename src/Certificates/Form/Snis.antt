-- ===== src/Certificates/Form/Snis.antt =====
-- The host names of a certificate on their way from the input to the controller and back.
use Prim.Native.String.{◌++◌}
use Prim.Native.String.append
use aurora_api_gateway.Prelude.{
  ◌≡◌, refl, ap, ◌∙◌, String, true, false, List, [], ◌∷◌, inl, inr, All, Bool-cases,
}
use aurora_api_gateway.Prelude.Text.{is_empty, trim, to_lower_case, join}
use aurora_api_gateway.Prelude.Text.Laws.{
  trim_idem, to_lower_case-IsLower, to_lower_case_of_IsLower, trim-to_lower_case,
}
use aurora_api_gateway.Prelude.Text.Split.{
  push_front, lacks, AllLack, split_on, split_on-AllLack, split_on_one, split_on-append, lacks-trim,
  lacks-to_lower_case,
}
use aurora_api_gateway.Certificates.Form.{is_mark, clean_snis, read_snis}

-- A host name as it is sent: not empty, no space at its ends, no capital, no comma, no line break.
abbrev pub IsSni : String → Type 0
IsSni s = (is_empty s ≡ false) × (trim s ≡ s) × (to_lower_case s ≡ s) × (lacks is_mark s ≡ true)

abbrev pub AreSnis : List String → Type 0
AreSnis = All IsSni

lacks-cleaned :
    (s : String) → lacks is_mark s ≡ true → lacks is_mark (to_lower_case (trim s)) ≡ true
lacks-cleaned s h = lacks-to_lower_case is_mark (trim s) refl (lacks-trim is_mark s h)

cleaned-IsSni :
    (s : String)
    → lacks is_mark s ≡ true
    → is_empty (to_lower_case (trim s)) ≡ false
    → IsSni (to_lower_case (trim s))
cleaned-IsSni s h full = (
  full,
  trim-to_lower_case (trim s) ∙ ap to_lower_case (trim_idem s),
  to_lower_case_of_IsLower (to_lower_case (trim s)) (to_lower_case-IsLower (trim s)),
  lacks-cleaned s h,
)

clean_snis-AreSnis : (ps : List String) → AllLack is_mark ps → AreSnis (clean_snis ps)
clean_snis-AreSnis [] h = tt
clean_snis-AreSnis (p ∷ ps) (h, hs) = elim (Bool-cases (is_empty (to_lower_case (trim p)))) [
  | inl gone ↦ rw gone (clean_snis-AreSnis ps hs)
  | inr full ↦ rw full (cleaned-IsSni p h full, clean_snis-AreSnis ps hs)
]

pub read_snis-AreSnis : (input : String) → AreSnis (read_snis input)
unfolding read_snis
read_snis-AreSnis input =
    clean_snis-AreSnis (split_on is_mark input) (split_on-AllLack is_mark input)

clean_snis-kept :
    (p : String) (ps : List String) → IsSni p → clean_snis (p ∷ ps) ≡ p ∷ clean_snis ps
clean_snis-kept p ps (full, trimmed, lower, _) = rw (trimmed, lower, full) refl

-- The space that follows a comma is trimmed away.
clean_snis-spaced : (ps : List String) → clean_snis (push_front " " ps) ≡ clean_snis ps
unfolding trim to_lower_case
clean_snis-spaced [] = refl
clean_snis-spaced (p ∷ ps) = refl

comma_space : (r : String) → ", " ++ r ≡ String.◌∷◌ "," (String.◌∷◌ " " r)
comma_space r =
    append.cons "," " " r
    ∙ ap (String.◌∷◌ ",") (append.cons " " "" r ∙ ap (String.◌∷◌ " ") (append.nil r))

-- The host names that were sent, joined for the input, are read as they were.
pub read_snis-join : (ps : List String) → AreSnis ps → read_snis (join ", " ps) ≡ ps
unfolding read_snis join
read_snis-join [] h = unfold split_on trim to_lower_case in refl
read_snis-join (p ∷ []) (h, tt) =
    ap clean_snis (split_on_one is_mark p h.3) ∙ clean_snis-kept p [] h
read_snis-join (p ∷ q ∷ qs) (h, hs) =
    let r = join ", " (q ∷ qs) in
    ap (λ t. clean_snis (split_on is_mark (p ++ t))) (comma_space r)
    ∙ ap clean_snis (split_on-append is_mark p "," (String.◌∷◌ " " r) h.3 refl)
    ∙ clean_snis-kept p (split_on is_mark (String.◌∷◌ " " r)) h
    ∙ ap (λ ss. p ∷ ss)
        ((unfold split_on in clean_snis-spaced (split_on is_mark r)) ∙ read_snis-join (q ∷ qs) hs)
