-- ===== src/Prelude/Json/Laws.antt =====
-- Reading a member after a write.
use Prim.Native.String.{String}
use text.Mathlib.Text.{◌==◌ as str_eq}
use text.Mathlib.TextEquality.{eq_iff}
use text.Mathlib.TextPositions.{eq_refl}
use mathlib.Core.Path.{◌≡◌, refl, ap, sym}
use mathlib.Core.Bool.{false}
use mathlib.Core.Option.{none, some, some-injective}
use mathlib.Core.Logic.{inl, inr}
use mathlib.Core.List.{List, [], ◌∷◌}
use native.Mathlib.Omega.{arith}
use aurora_api_gateway.Prelude.Tests.{if◌then◌else◌, Bool-cases}
use aurora_api_gateway.Prelude.Json.{
  Json, Items, nil, cons, Fields, end, field, get, put, remove, elements, items_of,
}

pub get-put :
    (k j : String) (v : Json) (o : Fields)
    → get j (put k v o) ≡ (if str_eq k j then some v else get j o)
unfolding get put
get-put k j v end = refl
get-put k j v (field i w o) = ground (arith, eq_iff k j, eq_iff i k, eq_iff i j, get-put k j v o)

pub get-put_self : (k : String) (v : Json) (o : Fields) → get k (put k v o) ≡ some v
get-put_self k v o = simp (get-put, eq_refl)

pub get-put_other :
    (k j : String) (v : Json) (o : Fields) → str_eq k j ≡ false → get j (put k v o) ≡ get j o
get-put_other k j v o h = rw (get-put k j v o) (rw h)

pub get-remove :
    (k j : String) (o : Fields) → get j (remove k o) ≡ (if str_eq k j then none else get j o)
unfolding get remove
get-remove k j end = ground arith
get-remove k j (field i w o) = ground (arith, eq_iff k j, eq_iff i k, eq_iff i j, get-remove k j o)

pub elements-items_of : (vs : List Json) → elements (items_of vs) ≡ vs
unfolding elements items_of
elements-items_of [] = refl
elements-items_of (v ∷ vs) = ap (λ ws. v ∷ ws) (elements-items_of vs)

pub items_of-elements : (vs : Items) → items_of (elements vs) ≡ vs
unfolding elements items_of
items_of-elements nil = refl
items_of-elements (cons v vs) = ap (cons v) (items_of-elements vs)

-- Writing the value that is there changes nothing.
pub put_same : (k : String) (v : Json) (o : Fields) → get k o ≡ some v → put k v o ≡ o
unfolding get put
put_same k v end h = ground arith
put_same k v (field j w o) h = elim (Bool-cases (str_eq j k)) [
  | inl e ↦
      let same : j ≡ k = (eq_iff j k).0 e in
      let value : some w ≡ some v = rw e at h in
      rw e (λ i. field (sym same i) (sym (some-injective w v value) i) o)
  | inr e ↦ let rest : get k o ≡ some v = rw e at h in rw e (ap (field j w) (put_same k v o rest))
]

pub remove_absent : (k : String) (o : Fields) → get k o ≡ none → remove k o ≡ o
unfolding get remove
remove_absent k end h = refl
remove_absent k (field j w o) h = elim (Bool-cases (str_eq j k)) [
  | inl e ↦ let value : some w ≡ none = rw e at h in absurd (ground arith)
  | inr e ↦ let rest : get k o ≡ none = rw e at h in rw e (ap (field j w) (remove_absent k o rest))
]
