-- ===== src/L4/Acl/Tests.antt =====
-- The access rules at concrete inputs.
use text.Mathlib.Text.{◌==◌ as str_eq}
use aurora_api_gateway.Prelude.{
  ◌+◌, Bool, ◌||◌, ◌≡◌, refl, List, [], ◌∷◌, map, String, some, none, arith,
}
use aurora_api_gateway.Prelude.Int.{pos}
use aurora_api_gateway.Prelude.Text.{trim}
use aurora_api_gateway.L4.Acl.{
  AclRule, AclEditor, allow, deny, up, down, init_editor, sort_rules, quick_add, set_rules,
  handle_move_rule, run, quick_add_rule, move, any_address, is_deny, handle_add_acl,
  priority_in_use,
}
use aurora_api_gateway.L4.Acl.Invariant.{IsOrdered, run-IsOrdered, init_editor-IsOrdered}
use aurora_api_gateway.L4.Acl.Move.{swap_at, handle_move_rule-swap_at, handle_move_rule-restores}
use aurora_api_gateway.L4.Acl.Match.{
  verdict, IsDeciding, first_match-IsDeciding, quick_deny_verdict, quick_front_verdict,
}

abbrev office : AclRule
office = record { cidr = "10.0.0.0/8"; action = allow; priority = 7; description = none }

abbrev guest : AclRule
guest = record { cidr = "10.9.0.0/16"; action = deny; priority = 3; description = none }

abbrev two_rules : List AclRule
two_rules = office ∷ guest ∷ []

two_rules-IsOrdered : IsOrdered two_rules
two_rules-IsOrdered = record { falling = omega arith; positive = omega arith }

abbrev editing : AclEditor
editing = record {
  rules = two_rules;
  new_priority = pos 8;
  new_cidr = " 10.1.0.0/16 ";
  new_action = deny;
  new_description = "";
  error_msg = none;
}

added :
    map (λ r. r.cidr) (handle_add_acl (record editing { new_priority = pos 5 })).rules
    ≡ "10.0.0.0/8" ∷ "10.1.0.0/16" ∷ "10.9.0.0/16" ∷ []
unfolding handle_add_acl sort_rules trim
added = refl

refused :
    (handle_add_acl (record editing { new_priority = pos 3 })).error_msg ≡ some (priority_in_use 3)
unfolding handle_add_acl trim
refused = refl

-- The address 10.9.1.1, and any address.
abbrev covers_guest : String → Bool
covers_guest c = str_eq c "10.9.0.0/16" || (str_eq c "10.0.0.0/8" || str_eq c any_address)

run-IsOrdered_example :
    IsOrdered
      (run init_editor (
        quick_add_rule "10.0.0.0/8" allow "Internal"
        ∷ quick_add_rule any_address deny "Block"
        ∷ move 0 down
        ∷ [])).rules
run-IsOrdered_example =
    run-IsOrdered init_editor
      (quick_add_rule "10.0.0.0/8" allow "Internal"
        ∷ quick_add_rule any_address deny "Block"
        ∷ move 0 down
        ∷ [])
      init_editor-IsOrdered

handle_move_rule-swap_at_example :
    (handle_move_rule editing (0 + 1) up ≡ set_rules editing (swap_at 0 editing.rules))
    × (handle_move_rule editing 0 down ≡ set_rules editing (swap_at 0 editing.rules))
handle_move_rule-swap_at_example = handle_move_rule-swap_at editing 0 (omega arith) (omega arith)

handle_move_rule-restores_example :
    (handle_move_rule (handle_move_rule editing 0 down) (0 + 1) up).rules ≡ two_rules
handle_move_rule-restores_example = handle_move_rule-restores editing 0 (omega arith) (omega arith)

first_match-IsDeciding_example : IsDeciding covers_guest (guest ∷ office ∷ []) office
unfolding sort_rules
first_match-IsDeciding_example =
    first_match-IsDeciding covers_guest (guest ∷ office ∷ []) office refl

quick_deny_verdict_example :
    verdict covers_guest (quick_add any_address deny "Block" two_rules) ≡ some allow
quick_deny_verdict_example =
    quick_deny_verdict covers_guest "Block" two_rules two_rules-IsOrdered refl

quick_front_verdict_example :
    verdict covers_guest (quick_add "10.9.0.0/16" deny "Guests" two_rules) ≡ some deny
unfolding is_deny
quick_front_verdict_example =
    quick_front_verdict covers_guest "10.9.0.0/16" deny "Guests" two_rules two_rules-IsOrdered refl
