-- ===== src/L4/Acl/Invariant.antt =====
-- The rules that the editor holds are in strictly falling order of priority, after any input.
use text.Mathlib.Text.{◌==◌ as str_eq}
use aurora_api_gateway.Prelude.Text.{is_empty, trim}
use aurora_api_gateway.L4.Acl.Move.{
  swap_at, swap_at-IsDesc, All-swap_at, move_rule_up, move_rule_down,
}
use aurora_api_gateway.Prelude.{
  ℕ, zero, suc, ◌+◌, ◌-◌, ◌≤◌, ◌<◌, ◌≡◌, ◌≢◌, refl, sym, ◌∙◌, inl, inr, List, [], ◌∷◌, ◌++◌, map,
  ltb, ◌||◌, ◌&&◌, Bool-cases, All, All-append, arith, false, String, any, length, ◌==◌,
}
use aurora_api_gateway.Prelude.Int.{ℤ, pos, negsuc}
use aurora_api_gateway.L4.Acl.{
  is_deny, AclRule, AclAction, AclEditor, AclEvent, Direction, deny, up, down, sort_rules,
  max_priority, next_priority, add_rule, check_priority, handle_add_acl, quick_add, shift_rule,
  quick_rule, any_address, handle_quick_add_rule, remove_at, handle_remove_acl, handle_move_rule,
  step, run, type_priority, type_cidr, pick_action, type_description, add_acl, quick_add_rule,
  remove_acl, move, max_acl_priority, init_editor,
}
use aurora_api_gateway.L4.Acl.Sort.{
  IsDesc, IsDistinct, All-sort_rules, All-imp, sort_rules-IsDesc, sort_rules-append_one,
  IsDesc-IsDistinct, IsDesc-append_one, insert_rule_above, sort_rules_of_IsWeaklyDesc,
  IsDesc-IsWeaklyDesc,
}

-- The order of the rules decides an address as the priorities do, and each priority is positive.
pub record IsOrdered (rules : List AclRule) : Type 0 where
  pub falling : IsDesc rules
  pub positive : All (λ r. 1 ≤ r.priority) rules

IsDistinct-append_one :
    (x : AclRule) (xs : List AclRule)
    → IsDistinct xs
    → All (λ y. y.priority ≢ x.priority) xs
    → IsDistinct (xs ++ x ∷ [])
IsDistinct-append_one x [] h ne = (tt, tt)
IsDistinct-append_one x (y ∷ ys) (n, h) (m, ne) = (
  All-append (λ r. r.priority ≢ y.priority) ys (x ∷ []) n ((λ e. m (sym e)), tt),
  IsDistinct-append_one x ys h ne,
)

-- Sorting in one more rule, with a priority that no other has.
sort_one-IsOrdered :
    (x : AclRule) (xs : List AclRule)
    → IsOrdered xs
    → 1 ≤ x.priority
    → All (λ y. y.priority ≢ x.priority) xs
    → IsOrdered (sort_rules (xs ++ x ∷ []))
sort_one-IsOrdered x xs v p ne = record {
  falling =
      sort_rules-IsDesc (xs ++ x ∷ [])
        (IsDistinct-append_one x xs (IsDesc-IsDistinct xs v.falling) ne);
  positive =
      All-sort_rules (λ r. 1 ≤ r.priority) (xs ++ x ∷ [])
        (All-append (λ r. 1 ≤ r.priority) xs (x ∷ []) v.positive (p, tt));
}

-- The test for a priority in use.
unused_priority :
    (n : ℕ) (xs : List AclRule)
    → any (λ r. r.priority == n) xs ≡ false
    → All (λ y. y.priority ≢ n) xs
unused_priority n [] h = tt
unused_priority n (x ∷ xs) h = ((λ e. ground arith), unused_priority n xs (ground arith))

le-max_priority : (xs : List AclRule) → All (λ y. y.priority ≤ max_priority xs) xs
unfolding max_priority
le-max_priority [] = tt
le-max_priority (x ∷ xs) = (
  omega arith,
  All-imp (λ r (p : r.priority ≤ max_priority xs). omega arith) xs (le-max_priority xs),
)

pub lt-next_priority : (xs : List AclRule) → All (λ y. y.priority < next_priority xs) xs
unfolding next_priority
lt-next_priority [] = tt
lt-next_priority (x ∷ xs) =
    All-imp (λ r (p : r.priority ≤ max_priority (x ∷ xs)). omega arith) (x ∷ xs)
      (le-max_priority (x ∷ xs))

pub next_priority-pos : (xs : List AclRule) → 1 ≤ next_priority xs
unfolding next_priority
next_priority-pos [] = omega arith
next_priority-pos (x ∷ xs) = omega arith

shift_rule-IsDesc : (xs : List AclRule) → IsDesc xs → IsDesc (map shift_rule xs)
unfolding shift_rule
shift_rule-IsDesc [] h = tt
shift_rule-IsDesc (x ∷ xs) (above, h) = (above_all xs above, shift_rule-IsDesc xs h)
  where
    above_all :
        (ys : List AclRule)
        → All (λ y. y.priority < x.priority) ys
        → All (λ y. y.priority < x.priority + 1) (map shift_rule ys)
    above_all [] p = tt
    above_all (y ∷ ys) (p, q) = (omega arith, above_all ys q)

shift_rule-above_one :
    (xs : List AclRule)
    → All (λ r. 1 ≤ r.priority) xs
    → All (λ y. 1 < y.priority) (map shift_rule xs)
unfolding shift_rule
shift_rule-above_one [] h = tt
shift_rule-above_one (x ∷ xs) (p, h) = (omega arith, shift_rule-above_one xs h)

ne_of_lt : {a b : ℕ} → a < b → a ≢ b
ne_of_lt h e = omega arith

ne_of_gt : {a b : ℕ} → b < a → a ≢ b
ne_of_gt h e = omega arith

-- A quick rule that denies every address goes last, under the others raised by one.
pub quick_add_deny_any :
    (desc : String) (rules : List AclRule)
    → IsOrdered rules
    → quick_add any_address deny desc rules
      ≡ map shift_rule rules ++ quick_rule any_address deny desc 1 ∷ []
unfolding quick_add
quick_add_deny_any desc rules v = sort_rules_of_IsWeaklyDesc _ (
    IsDesc-IsWeaklyDesc _ (
      IsDesc-append_one (quick_rule any_address deny desc 1) (map shift_rule rules)
        (shift_rule-IsDesc rules v.falling) (shift_rule-above_one rules v.positive)))

-- A rule of the next free priority is sorted to the front.
sort_next :
    (r : AclRule) (rules : List AclRule)
    → IsOrdered rules
    → r.priority ≡ next_priority rules
    → sort_rules (rules ++ r ∷ []) ≡ r ∷ rules
sort_next r rules v e =
    let lower : All (λ y. y.priority < next_priority rules) rules = lt-next_priority rules in
    sort_rules-append_one r rules v.falling
      (All-imp (λ y (p : y.priority < next_priority rules). ne_of_lt (omega arith)) rules lower)
    ∙ insert_rule_above r rules
        (All-imp (λ y (p : y.priority < next_priority rules). omega arith) rules lower)

-- A quick rule other than a denial of every address goes first, above all others.
pub quick_add_front :
    (cidr : String) (action : AclAction) (desc : String) (rules : List AclRule)
    → IsOrdered rules
    → (is_deny action && str_eq cidr any_address) ≡ false
    → quick_add cidr action desc rules ≡ quick_rule cidr action desc (next_priority rules) ∷ rules
unfolding quick_add
quick_add_front cidr action desc rules v other = rw other (sort_next _ rules v refl)

cons_next-IsOrdered :
    (r : AclRule) (rules : List AclRule)
    → IsOrdered rules
    → r.priority ≡ next_priority rules
    → IsOrdered (r ∷ rules)
cons_next-IsOrdered r rules v e = record {
  falling = (
    All-imp (λ y (p : y.priority < next_priority rules). omega arith) rules
        (lt-next_priority rules),
    v.falling,
  );
  positive = (omega (arith, next_priority-pos rules), v.positive);
}

quick_add-IsOrdered :
    (cidr : String) (action : AclAction) (desc : String) (rules : List AclRule)
    → IsOrdered rules
    → IsOrdered (quick_add cidr action desc rules)
unfolding quick_add
quick_add-IsOrdered cidr action desc rules v =
    elim (Bool-cases (is_deny action && str_eq cidr any_address)) [
      | inl bottom ↦ rw bottom (
          sort_one-IsOrdered (quick_rule cidr action desc 1) (map shift_rule rules)
            (record {
              falling = shift_rule-IsDesc rules v.falling;
              positive =
                  All-imp (λ r (p : 1 < r.priority). omega arith) (map shift_rule rules)
                    (shift_rule-above_one rules v.positive);
            })
            (omega arith)
            (All-imp (λ r (p : 1 < r.priority). ne_of_gt p) (map shift_rule rules)
              (shift_rule-above_one rules v.positive)))
      | inr other ↦ rw other (
          rw (sort_next (quick_rule cidr action desc (next_priority rules)) rules v refl)
            (cons_next-IsOrdered _ rules v refl))
    ]

module _ (P : AclRule → Type 0) where
  All-remove_at : (i : ℕ) (xs : List AclRule) → All P xs → All P (remove_at i xs)
  unfolding remove_at
  All-remove_at i [] h = tt
  All-remove_at zero (x ∷ xs) h = h.1
  All-remove_at (suc i) (x ∷ xs) (p, h) = (p, All-remove_at i xs h)

remove_at-IsDesc : (i : ℕ) (xs : List AclRule) → IsDesc xs → IsDesc (remove_at i xs)
unfolding remove_at
remove_at-IsDesc i [] h = tt
remove_at-IsDesc zero (x ∷ xs) h = h.1
remove_at-IsDesc (suc i) (x ∷ xs) (above, h) =
    (All-remove_at (λ y. y.priority < x.priority) i xs above, remove_at-IsDesc i xs h)

remove_at-IsOrdered :
    (i : ℕ) (rules : List AclRule) → IsOrdered rules → IsOrdered (remove_at i rules)
remove_at-IsOrdered i rules v = record {
  falling = remove_at-IsDesc i rules v.falling;
  positive = All-remove_at (λ r. 1 ≤ r.priority) i rules v.positive;
}

swap_at-IsOrdered : (i : ℕ) (rules : List AclRule) → IsOrdered rules → IsOrdered (swap_at i rules)
swap_at-IsOrdered i rules v = record {
  falling = swap_at-IsDesc i rules v.falling;
  positive = All-swap_at (λ p. 1 ≤ p) i rules v.positive;
}

move-IsOrdered :
    (s : AclEditor) (index : ℕ) (d : Direction)
    → IsOrdered s.rules
    → IsOrdered (handle_move_rule s index d).rules
unfolding handle_move_rule
move-IsOrdered s zero up v = v
move-IsOrdered s (suc i) up v =
    let back : suc i - 1 ≡ i = omega arith in
    let inner : (suc i == 0) ≡ false = ground arith in
    rw (inner, back) (rw (move_rule_up i s.rules v.falling) (swap_at-IsOrdered i s.rules v))
move-IsOrdered s index down v = elim (Bool-cases (index + 1 == length s.rules)) [
  | inl last ↦ rw last v
  | inr inner ↦
      let next : index + 1 ≡ suc index = omega arith in
      rw inner
        (rw next (rw (move_rule_down index s.rules v.falling) (swap_at-IsOrdered index s.rules v)))
]

check_priority-IsOrdered :
    (s : AclEditor) (n : ℤ) → IsOrdered s.rules → IsOrdered (check_priority s n).rules
unfolding check_priority add_rule
check_priority-IsOrdered s (negsuc n) v = v
check_priority-IsOrdered s (pos n) v = elim (Bool-cases (ltb n 1 || ltb max_acl_priority n)) [
  | inl out ↦ rw out v
  | inr within ↦ rw within (elim (Bool-cases (any (λ r. r.priority == n) s.rules)) [
    | inl used ↦ rw used v
    | inr free ↦
        rw free (sort_one-IsOrdered _ s.rules v (ground arith) (unused_priority n s.rules free))
  ])
]

-- Every event keeps the rules of the editor in strictly falling order of positive priorities.
pub step-IsOrdered : (s : AclEditor) (e : AclEvent) → IsOrdered s.rules → IsOrdered (step s e).rules
unfolding step handle_remove_acl handle_quick_add_rule handle_add_acl
step-IsOrdered s (type_priority n) v = v
step-IsOrdered s (type_cidr c) v = v
step-IsOrdered s (pick_action a) v = v
step-IsOrdered s (type_description d) v = v
step-IsOrdered s add_acl v = elim (Bool-cases (is_empty (trim s.new_cidr))) [
  | inl blank ↦ rw blank v
  | inr given ↦ rw given (check_priority-IsOrdered s s.new_priority v)
]
step-IsOrdered s (quick_add_rule cidr action desc) v =
    quick_add-IsOrdered cidr action desc s.rules v
step-IsOrdered s (remove_acl i) v = remove_at-IsOrdered i s.rules v
step-IsOrdered s (move i d) v = move-IsOrdered s i d v

-- After any chain of events of an editor whose rules are in strictly falling order of positive
-- priorities, they still are.
pub run-IsOrdered :
    (s : AclEditor) (es : List AclEvent) → IsOrdered s.rules → IsOrdered (run s es).rules
unfolding run
run-IsOrdered s [] v = v
run-IsOrdered s (e ∷ es) v = run-IsOrdered (step s e) es (step-IsOrdered s e v)

-- A new editor has no rules.
pub init_editor-IsOrdered : IsOrdered init_editor.rules
unfolding init_editor
init_editor-IsOrdered = record { falling = tt; positive = tt }
