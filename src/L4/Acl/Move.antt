-- ===== src/L4/Acl/Move.antt =====
-- Moving a rule by one place: `handleMoveRule`.
use mathlib.Core.Path.{◌≡⟨◌⟩◌, ◌∎}
use aurora_api_gateway.Prelude.{
  ℕ, zero, suc, ◌+◌, ◌-◌, ◌≤◌, ◌<◌, ◌≡◌, refl, sym, ap, inl, inr, List, [], ◌∷◌, Option-cases, All,
  arith, Option, some, none, set, get_elem?, length,
}
use aurora_api_gateway.L4.Acl.{
  AclRule, AclEditor, up, down, insert_rule, sort_rules, exchange, move_rule, handle_move_rule,
  set_rules,
}
use aurora_api_gateway.L4.Acl.Sort.{
  IsDesc, All-imp, insert_rule_above, insert_rule_below, sort_rules_of_IsWeaklyDesc,
  IsDesc-IsWeaklyDesc,
}

-- The two rules at `i` and `i + 1` change places, and each place keeps its priority.
pub swap_at : ℕ → List AclRule → List AclRule
swap_at i [] = []
swap_at zero (a ∷ []) = a ∷ []
swap_at zero (a ∷ b ∷ rs) =
    record b { priority = a.priority } ∷ record a { priority = b.priority } ∷ rs
swap_at (suc i) (a ∷ rs) = a ∷ swap_at i rs

-- What the code sorts: the priorities are exchanged and the places are not.
exchanged : ℕ → List AclRule → List AclRule
exchanged i [] = []
exchanged zero (a ∷ []) = a ∷ []
exchanged zero (a ∷ b ∷ rs) =
    record a { priority = b.priority } ∷ record b { priority = a.priority } ∷ rs
exchanged (suc i) (a ∷ rs) = a ∷ exchanged i rs

set-set-exchanged_down :
    (i : ℕ) (rs : List AclRule) (a b : AclRule)
    → get_elem? rs i ≡ some a
    → get_elem? rs (suc i) ≡ some b
    → set
        (set rs i (record a { priority = b.priority }))
        (suc i)
        (record b { priority = a.priority })
      ≡ exchanged i rs
unfolding exchanged
set-set-exchanged_down i [] a b p q = cc
set-set-exchanged_down zero (x ∷ []) a b p q = cc
set-set-exchanged_down zero (x ∷ y ∷ rs) a b p q = ground arith
set-set-exchanged_down (suc i) (x ∷ rs) a b p q = ap (◌∷◌ x) (set-set-exchanged_down i rs a b p q)

set-set-exchanged_up :
    (i : ℕ) (rs : List AclRule) (a b : AclRule)
    → get_elem? rs i ≡ some a
    → get_elem? rs (suc i) ≡ some b
    → set
        (set rs (suc i) (record b { priority = a.priority }))
        i
        (record a { priority = b.priority })
      ≡ exchanged i rs
unfolding exchanged
set-set-exchanged_up i [] a b p q = cc
set-set-exchanged_up zero (x ∷ []) a b p q = cc
set-set-exchanged_up zero (x ∷ y ∷ rs) a b p q = ground arith
set-set-exchanged_up (suc i) (x ∷ rs) a b p q = ap (◌∷◌ x) (set-set-exchanged_up i rs a b p q)

swap_at_past : (i : ℕ) (rs : List AclRule) → get_elem? rs (suc i) ≡ none → swap_at i rs ≡ rs
unfolding swap_at
swap_at_past i [] e = refl
swap_at_past zero (a ∷ []) e = refl
swap_at_past zero (a ∷ b ∷ rs) e = cc
swap_at_past (suc i) (a ∷ rs) e = ap (◌∷◌ a) (swap_at_past i rs e)

get_elem?_pred :
    (i : ℕ) (rs : List AclRule) (b : AclRule)
    → get_elem? rs (suc i) ≡ some b
    → (a : AclRule) × (get_elem? rs i ≡ some a)
get_elem?_pred i [] b e = absurd (cc)
get_elem?_pred zero (a ∷ rs) b e = (a, refl)
get_elem?_pred (suc i) (a ∷ rs) b e = get_elem?_pred i rs b e

-- A predicate on priorities alone.
pub All-swap_at :
    (P : ℕ → Type 0) (i : ℕ) (rs : List AclRule)
    → All (λ r. P r.priority) rs
    → All (λ r. P r.priority) (swap_at i rs)
unfolding swap_at
All-swap_at P i [] h = h
All-swap_at P zero (a ∷ []) h = h
All-swap_at P zero (a ∷ b ∷ rs) h = h
All-swap_at P (suc i) (a ∷ rs) (p, h) = (p, All-swap_at P i rs h)

pub swap_at-IsDesc : (i : ℕ) (rs : List AclRule) → IsDesc rs → IsDesc (swap_at i rs)
unfolding swap_at
swap_at-IsDesc i [] h = h
swap_at-IsDesc zero (a ∷ []) h = h
swap_at-IsDesc zero (a ∷ b ∷ rs) h = h
swap_at-IsDesc (suc i) (a ∷ rs) (above, h) =
    (All-swap_at (λ p. p < a.priority) i rs above, swap_at-IsDesc i rs h)

sort_rules-exchanged :
    (i : ℕ) (rs : List AclRule) → IsDesc rs → sort_rules (exchanged i rs) ≡ swap_at i rs
unfolding sort_rules exchanged swap_at
sort_rules-exchanged i [] h = refl
sort_rules-exchanged zero (a ∷ []) h = refl
sort_rules-exchanged zero (a ∷ b ∷ rs) (above, (above', h)) =
    rw (sort_rules_of_IsWeaklyDesc rs (IsDesc-IsWeaklyDesc rs h)) (
      insert_rule low (insert_rule high rs)
      ≡⟨ ap (insert_rule low) (
          insert_rule_above high rs
            (All-imp (λ r (p : r.priority < a.priority). omega arith) rs above.1)) ⟩
        insert_rule low (high ∷ rs)
      ≡⟨ insert_rule_below low high rs above.0 ⟩ high ∷ insert_rule low rs
      ≡⟨ ap (◌∷◌ high) (
          insert_rule_above low rs
            (All-imp (λ r (p : r.priority < b.priority). omega arith) rs above')) ⟩
        high ∷ low ∷ rs ∎)
  where
    low : AclRule
    low = record a { priority = b.priority }

    high : AclRule
    high = record b { priority = a.priority }
sort_rules-exchanged (suc i) (a ∷ rs) (above, h) = rw (sort_rules-exchanged i rs h) (
    insert_rule_above a (swap_at i rs) (
      All-swap_at (λ p. p ≤ a.priority) i rs
        (All-imp (λ r (p : r.priority < a.priority). omega arith) rs above)))

pub move_rule_down : (i : ℕ) (rs : List AclRule) → IsDesc rs → move_rule rs i (suc i) ≡ swap_at i rs
unfolding move_rule
move_rule_down i rs h = elim (Option-cases (get_elem? rs (suc i))) [
  | inl past ↦ rw (past, exchange) (missing (get_elem? rs i) past)
  | inr (b, e) ↦
      let (a, e') = get_elem?_pred i rs b e in
      rw (e, e', exchange) (rw (set-set-exchanged_down i rs a b e' e) (sort_rules-exchanged i rs h))
]
  where
    missing :
        (o : Option AclRule)
        → get_elem? rs (suc i) ≡ none
        → exchange rs i (suc i) o none ≡ swap_at i rs
    missing none past = sym (swap_at_past i rs past)
    missing (some x) past = sym (swap_at_past i rs past)

pub move_rule_up : (i : ℕ) (rs : List AclRule) → IsDesc rs → move_rule rs (suc i) i ≡ swap_at i rs
unfolding move_rule
move_rule_up i rs h = elim (Option-cases (get_elem? rs (suc i))) [
  | inl past ↦ rw (past, exchange) (missing (get_elem? rs i) past)
  | inr (b, e) ↦
      let (a, e') = get_elem?_pred i rs b e in
      rw (e, e', exchange) (rw (set-set-exchanged_up i rs a b e' e) (sort_rules-exchanged i rs h))
]
  where
    missing :
        (o : Option AclRule)
        → get_elem? rs (suc i) ≡ none
        → exchange rs (suc i) i none o ≡ swap_at i rs
    missing none past = sym (swap_at_past i rs past)
    missing (some x) past = sym (swap_at_past i rs past)

-- Exchanging twice restores the list.
pub swap_at_twice : (i : ℕ) (rs : List AclRule) → swap_at i (swap_at i rs) ≡ rs
unfolding swap_at
swap_at_twice i [] = refl
swap_at_twice zero (a ∷ []) = refl
swap_at_twice zero (a ∷ b ∷ rs) = refl
swap_at_twice (suc i) (a ∷ rs) = ap (◌∷◌ a) (swap_at_twice i rs)

length-swap_at : (i : ℕ) (rs : List AclRule) → length (swap_at i rs) ≡ length rs
unfolding swap_at
length-swap_at i [] = refl
length-swap_at zero (a ∷ []) = refl
length-swap_at zero (a ∷ b ∷ rs) = refl
length-swap_at (suc i) (a ∷ rs) = ap suc (length-swap_at i rs)

-- In an editor whose rules are strictly sorted, moving the rule at `i + 1` up and moving the rule
-- at `i` down are one operation, when both places are in the list: the two rules change places and
-- each place keeps its priority. The suggested priority is set anew.
pub handle_move_rule-swap_at :
    (s : AclEditor) (i : ℕ)
    → IsDesc s.rules
    → i + 1 < length s.rules
    → (handle_move_rule s (i + 1) up ≡ set_rules s (swap_at i s.rules))
      × (handle_move_rule s i down ≡ set_rules s (swap_at i s.rules))
unfolding handle_move_rule
handle_move_rule-swap_at s i h lt =
    let back : i + 1 - 1 ≡ i = omega arith in
    (ground (arith, back, move_rule_up i s.rules h), ground (arith, move_rule_down i s.rules h))

-- In an editor whose rules are strictly sorted, moving a rule that is not the last down and then up
-- again from its new place gives back the rules.
pub handle_move_rule-restores :
    (s : AclEditor) (i : ℕ)
    → IsDesc s.rules
    → i + 1 < length s.rules
    → (handle_move_rule (handle_move_rule s i down) (i + 1) up).rules ≡ s.rules
unfolding set_rules
handle_move_rule-restores s i h lt = rw ((handle_move_rule-swap_at s i h lt).1) (
    rw
      ((handle_move_rule-swap_at (set_rules s (swap_at i s.rules)) i (swap_at-IsDesc i s.rules h)
        (omega (arith, length-swap_at i s.rules))).0)
      (swap_at_twice i s.rules))
