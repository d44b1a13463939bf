-- ===== src/L4/Acl/Match.antt =====
-- Which rule decides an address. NGINX takes the first rule of the list that covers the address;
-- `covers` stands for its test of an address against a CIDR, which is not code of the repository.
use mathlib.Core.List.Perm
use mathlib.Core.List.{mem-cons, mem-cons_self, mem-cons_of_mem, not-mem-nil}
use mathlib.Core.Logic.Or
use mathlib.Core.HLevel.{Π_prop}
use native.Mathlib.Bridge.{le_prop}
use mathlib.Core.Option
use text.Mathlib.Text.{◌==◌ as str_eq}
use aurora_api_gateway.Prelude.{
  ◌≤◌, ◌≡◌, ap, inl, inr, List, [], ◌∷◌, ◌++◌, map, Mem, ◌&&◌, if◌then◌else◌, Bool, Bool-cases, All,
  arith, true, false, Option, some, String, find,
}
use aurora_api_gateway.L4.Acl.{
  AclRule, AclAction, deny, sort_rules, shift_rule, quick_add, quick_rule, any_address, is_deny,
}
use aurora_api_gateway.L4.Acl.Sort.{IsWeaklyDesc, All-imp, sort_rules-IsWeaklyDesc, sort_rules-perm}
use aurora_api_gateway.L4.Acl.Invariant.{IsOrdered, quick_add_deny_any, quick_add_front}

module _ (covers : String → Bool) where
  -- The first rule of the list that covers the address.
  abbrev pub first_match : List AclRule → Option AclRule
  first_match = find (λ r. covers r.cidr)

  -- The action of that rule.
  abbrev pub verdict : List AclRule → Option AclAction
  verdict rules = Option.map (λ r. r.action) (first_match rules)

  -- A listed rule that covers the address, and of a priority that no other such rule exceeds.
  pub record IsDeciding (rules : List AclRule) (r : AclRule) : Type 0 where
    pub listed : Mem r rules
    pub covering : covers r.cidr ≡ true
    pub highest : (q : AclRule) → Mem q rules → covers q.cidr ≡ true → q.priority ≤ r.priority

  first_match_sound :
      (xs : List AclRule) (r : AclRule)
      → first_match xs ≡ some r
      → Mem r xs × (covers r.cidr ≡ true)
  first_match_sound [] r e = absurd (cc)
  first_match_sound (x ∷ xs) r e = elim (Bool-cases (covers x.cidr)) [
    | inl hit ↦ let same : x ≡ r = ground arith in (rw (← same) mem-cons_self, rw (← same) hit)
    | inr miss ↦ let (m, c) = first_match_sound xs r (ground arith) in (mem-cons_of_mem x m, c)
  ]

  first_match-highest :
      (xs : List AclRule) (r : AclRule)
      → IsWeaklyDesc xs
      → first_match xs ≡ some r
      → All (λ q. covers q.cidr ≡ true → q.priority ≤ r.priority) xs
  first_match-highest [] r h e = tt
  first_match-highest (x ∷ xs) r (above, h) e = elim (Bool-cases (covers x.cidr)) [
    | inl hit ↦
        let same : x ≡ r = ground arith in
        let level : x.priority ≡ r.priority = ap (λ q. q.priority) same in
        (
          (λ _. omega arith),
          All-imp {Q = λ q. covers q.cidr ≡ true → q.priority ≤ r.priority}
              (λ q (p : q.priority ≤ x.priority). λ _. omega arith) xs above,
        )
    | inr miss ↦ ((λ hit. absurd (cc)), first_match-highest xs r h (ground arith))
  ]

  All-Mem :
      (P : AclRule → Type 0) (pr : (q : AclRule) → IsProp (P q)) (xs : List AclRule)
      → All P xs
      → (q : AclRule) → Mem q xs
      → P q
  All-Mem P pr [] h q m = absurd (not-mem-nil m)
  All-Mem P pr (x ∷ xs) (p, h) q m =
      Or.elim (pr q) (mem-cons.0 m) (λ e. rw e p) (λ m'. All-Mem P pr xs h q m')

  -- The first match in the sorted list is a rule of the highest priority that covers the address,
  -- whatever the order in which the rules were given.
  pub first_match-IsDeciding :
      (rules : List AclRule) (r : AclRule)
      → first_match (sort_rules rules) ≡ some r
      → IsDeciding rules r
  first_match-IsDeciding rules r e =
      let (m, c) = first_match_sound (sort_rules rules) r e in
      record {
        listed = Perm.subset (sort_rules-perm rules) _ m;
        covering = c;
        highest = λ q listed.
            All-Mem (λ q. covers q.cidr ≡ true → q.priority ≤ r.priority) (λ q. Π_prop λ _. le_prop)
              (sort_rules rules)
              (first_match-highest (sort_rules rules) r (sort_rules-IsWeaklyDesc rules) e) q
              (Perm.subset (Perm.symm (sort_rules-perm rules)) _ listed);
      }

  verdict-shift :
      (xs : List AclRule) (last : AclRule)
      → covers last.cidr ≡ true
      → verdict (map shift_rule xs ++ last ∷ []) ≡ some (Option.get_or (verdict xs) last.action)
  unfolding shift_rule
  verdict-shift [] last c = rw c
  verdict-shift (x ∷ xs) last c = elim (Bool-cases (covers x.cidr)) [
    | inl hit ↦ rw hit
    | inr miss ↦ rw miss (verdict-shift xs last c)
  ]

  -- In an ordered list the quick rule that denies every address leaves each verdict as it was, and
  -- an address that no rule covered is denied, where the range of all addresses covers the address.
  pub quick_deny_verdict :
      (desc : String) (rules : List AclRule)
      → IsOrdered rules
      → covers any_address ≡ true
      → verdict (quick_add any_address deny desc rules) ≡ some (Option.get_or (verdict rules) deny)
  quick_deny_verdict desc rules v c =
      rw (quick_add_deny_any desc rules v)
        (verdict-shift rules (quick_rule any_address deny desc 1) c)

  -- In an ordered list any other quick rule decides the addresses that it covers, and changes the
  -- verdict of no other address.
  pub quick_front_verdict :
      (cidr : String) (action : AclAction) (desc : String) (rules : List AclRule)
      → IsOrdered rules
      → (is_deny action && str_eq cidr any_address) ≡ false
      → verdict (quick_add cidr action desc rules)
        ≡ (if covers cidr then some action else verdict rules)
  quick_front_verdict cidr action desc rules v other =
      rw (quick_add_front cidr action desc rules v other)
        (elim (Bool-cases (covers cidr)) [ inl hit ↦ rw hit | inr miss ↦ rw miss ])
