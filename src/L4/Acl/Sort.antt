-- ===== src/L4/Acl/Sort.antt =====
-- Sorting the access rules by descending priority.
use mathlib.Core.List.Perm
use mathlib.Core.Path.{◌≡⟨◌⟩◌, ◌∎}
use aurora_api_gateway.Prelude.{
  ◌≤◌, ◌<◌, ◌≡◌, ◌≢◌, refl, sym, ap, inl, inr, List, [], ◌∷◌, ◌++◌, Perm, leb, Bool-cases, All,
  All-append, arith,
}
use aurora_api_gateway.L4.Acl.{AclRule, insert_rule, sort_rules}

-- Each rule's priority is above all those behind it.
abbrev pub IsDesc : List AclRule → Type 0
IsDesc [] = Unit
IsDesc (x ∷ xs) = All (λ y. y.priority < x.priority) xs × IsDesc xs

-- Not below any behind it.
abbrev pub IsWeaklyDesc : List AclRule → Type 0
IsWeaklyDesc [] = Unit
IsWeaklyDesc (x ∷ xs) = All (λ y. y.priority ≤ x.priority) xs × IsWeaklyDesc xs

-- No two rules share a priority.
abbrev pub IsDistinct : List AclRule → Type 0
IsDistinct [] = Unit
IsDistinct (x ∷ xs) = All (λ y. y.priority ≢ x.priority) xs × IsDistinct xs

module _ (P : AclRule → Type 0) where
  All-insert_rule : (x : AclRule) (ys : List AclRule) → P x → All P ys → All P (insert_rule x ys)
  unfolding insert_rule
  All-insert_rule x [] p h = (p, tt)
  All-insert_rule x (y ∷ ys) p (q, h) = elim (Bool-cases (leb y.priority x.priority)) [
    | inl e ↦ rw e (p, (q, h))
    | inr e ↦ rw e (q, All-insert_rule x ys p h)
  ]

  pub All-sort_rules : (xs : List AclRule) → All P xs → All P (sort_rules xs)
  unfolding sort_rules
  All-sort_rules [] h = tt
  All-sort_rules (x ∷ xs) (p, h) = All-insert_rule x (sort_rules xs) p (All-sort_rules xs h)

-- Weakening a predicate on all elements.
pub All-imp :
    {P Q : AclRule → Type 0}
    → ((r : AclRule) → P r → Q r)
    → (xs : List AclRule) → All P xs
    → All Q xs
All-imp f [] h = tt
All-imp f (x ∷ xs) (p, h) = (f x p, All-imp f xs h)

insert_rule-IsWeaklyDesc :
    (x : AclRule) (ys : List AclRule) → IsWeaklyDesc ys → IsWeaklyDesc (insert_rule x ys)
unfolding insert_rule
insert_rule-IsWeaklyDesc x [] h = (tt, tt)
insert_rule-IsWeaklyDesc x (y ∷ ys) (above, h) = elim (Bool-cases (leb y.priority x.priority)) [
  | inl e ↦
      let le : y.priority ≤ x.priority = ground arith in
      rw e ((le, All-imp (λ r (p : r.priority ≤ y.priority). omega arith) ys above), (above, h))
  | inr e ↦ rw e (
    All-insert_rule (λ r. r.priority ≤ y.priority) x ys (ground arith) above,
    insert_rule-IsWeaklyDesc x ys h,
  )
]

pub sort_rules-IsWeaklyDesc : (xs : List AclRule) → IsWeaklyDesc (sort_rules xs)
unfolding sort_rules
sort_rules-IsWeaklyDesc [] = tt
sort_rules-IsWeaklyDesc (x ∷ xs) =
    insert_rule-IsWeaklyDesc x (sort_rules xs) (sort_rules-IsWeaklyDesc xs)

insert_rule-IsDesc :
    (x : AclRule) (ys : List AclRule)
    → All (λ y. y.priority ≢ x.priority) ys
    → IsDesc ys
    → IsDesc (insert_rule x ys)
unfolding insert_rule
insert_rule-IsDesc x [] ne h = (tt, tt)
insert_rule-IsDesc x (y ∷ ys) (n, ne) (above, h) = elim (Bool-cases (leb y.priority x.priority)) [
  | inl e ↦
      let lt : y.priority < x.priority = ground (arith, n) in
      rw e ((lt, All-imp (λ r (p : r.priority < y.priority). omega arith) ys above), (above, h))
  | inr e ↦ rw e (
    All-insert_rule (λ r. r.priority < y.priority) x ys (ground arith) above,
    insert_rule-IsDesc x ys ne h,
  )
]

-- Rules with distinct priorities are sorted strictly.
pub sort_rules-IsDesc : (xs : List AclRule) → IsDistinct xs → IsDesc (sort_rules xs)
unfolding sort_rules
sort_rules-IsDesc [] h = tt
sort_rules-IsDesc (x ∷ xs) (ne, h) =
    insert_rule-IsDesc x (sort_rules xs) (All-sort_rules (λ y. y.priority ≢ x.priority) xs ne)
      (sort_rules-IsDesc xs h)

-- Sorting changes nothing in a sorted list.
pub sort_rules_of_IsWeaklyDesc : (xs : List AclRule) → IsWeaklyDesc xs → sort_rules xs ≡ xs
unfolding sort_rules
sort_rules_of_IsWeaklyDesc [] h = refl
sort_rules_of_IsWeaklyDesc (x ∷ xs) (above, h) =
    rw (sort_rules_of_IsWeaklyDesc xs h) (front xs above)
  where
    front : (ys : List AclRule) → All (λ y. y.priority ≤ x.priority) ys → insert_rule x ys ≡ x ∷ ys
    front [] p = refl
    front (y ∷ ys) (p, _) = ground arith

pub IsDesc-IsWeaklyDesc : (xs : List AclRule) → IsDesc xs → IsWeaklyDesc xs
IsDesc-IsWeaklyDesc [] h = tt
IsDesc-IsWeaklyDesc (x ∷ xs) (above, h) =
    (All-imp (λ r (p : r.priority < x.priority). omega arith) xs above, IsDesc-IsWeaklyDesc xs h)

pub IsDesc-IsDistinct : (xs : List AclRule) → IsDesc xs → IsDistinct xs
IsDesc-IsDistinct [] h = tt
IsDesc-IsDistinct (x ∷ xs) (above, h) =
    (All-imp (λ r (p : r.priority < x.priority). omega arith) xs above, IsDesc-IsDistinct xs h)

insert_rule-perm : (x : AclRule) (ys : List AclRule) → Perm (insert_rule x ys) (x ∷ ys)
unfolding insert_rule
insert_rule-perm x [] = Perm.refl _
insert_rule-perm x (y ∷ ys) = elim (Bool-cases (leb y.priority x.priority)) [
  | inl e ↦ rw e (Perm.refl _)
  | inr e ↦ rw e (Perm.trans (Perm.cons y (insert_rule-perm x ys)) (Perm.swap x y ys))
]

-- Sorting loses no rule and makes none up.
pub sort_rules-perm : (xs : List AclRule) → Perm (sort_rules xs) xs
unfolding sort_rules
sort_rules-perm [] = Perm.refl _
sort_rules-perm (x ∷ xs) =
    Perm.trans (insert_rule-perm x (sort_rules xs)) (Perm.cons x (sort_rules-perm xs))

-- A rule above all others goes to the front.
pub insert_rule_above :
    (x : AclRule) (ys : List AclRule)
    → All (λ y. y.priority ≤ x.priority) ys
    → insert_rule x ys ≡ x ∷ ys
unfolding insert_rule
insert_rule_above x [] p = refl
insert_rule_above x (y ∷ ys) (p, _) = ground arith

-- A rule below another goes behind it.
pub insert_rule_below :
    (x y : AclRule) (ys : List AclRule)
    → x.priority < y.priority
    → insert_rule x (y ∷ ys) ≡ y ∷ insert_rule x ys
unfolding insert_rule
insert_rule_below x y ys h = ground arith

-- A rule behind a sorted list is sorted into it.
pub sort_rules-append_one :
    (x : AclRule) (xs : List AclRule)
    → IsDesc xs
    → All (λ y. y.priority ≢ x.priority) xs
    → sort_rules (xs ++ x ∷ []) ≡ insert_rule x xs
unfolding sort_rules
sort_rules-append_one x [] h ne = refl
sort_rules-append_one x (y ∷ ys) (above, h) (n, ne) =
    rw (sort_rules-append_one x ys h ne) (elim (Bool-cases (leb y.priority x.priority)) [
      | inl e ↦
          let lt : y.priority < x.priority = ground (arith, n) in
          insert_rule y (insert_rule x ys)
          ≡⟨ ap (insert_rule y) (
              insert_rule_above x ys
                (All-imp (λ r (p : r.priority < y.priority). omega arith) ys above)) ⟩
            insert_rule y (x ∷ ys)
          ≡⟨ insert_rule_below y x ys lt ⟩ x ∷ insert_rule y ys
          ≡⟨ ap (◌∷◌ x) (
              insert_rule_above y ys
                (All-imp (λ r (p : r.priority < y.priority). omega arith) ys above)) ⟩
            x ∷ y ∷ ys
          ≡⟨ sym (
              insert_rule_above x (y ∷ ys)
                (omega arith, All-imp (λ r (p : r.priority < y.priority). omega arith) ys above)) ⟩
            insert_rule x (y ∷ ys) ∎
      | inr e ↦
          let lt : x.priority < y.priority = ground arith in
          insert_rule y (insert_rule x ys)
          ≡⟨ insert_rule_above y (insert_rule x ys) (
              All-insert_rule (λ r. r.priority ≤ y.priority) x ys (omega arith)
                (All-imp (λ r (p : r.priority < y.priority). omega arith) ys above)) ⟩
            y ∷ insert_rule x ys
          ≡⟨ sym (insert_rule_below x y ys lt) ⟩ insert_rule x (y ∷ ys) ∎
    ])

pub IsDesc-append_one :
    (x : AclRule) (xs : List AclRule)
    → IsDesc xs
    → All (λ y. x.priority < y.priority) xs
    → IsDesc (xs ++ x ∷ [])
IsDesc-append_one x [] h below = (tt, tt)
IsDesc-append_one x (y ∷ ys) (above, h) (b, below) = (
  All-append (λ r. r.priority < y.priority) ys (x ∷ []) above (b, tt),
  IsDesc-append_one x ys h below,
)
