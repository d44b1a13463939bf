-- ===== src/L4/Acl.antt =====
-- The access rules of an L4 service and their editor, in ui/src/pages/l4/create/page.tsx and, the
-- same code again, ui/src/pages/l4/edit/page.tsx. Priorities in the list are natural numbers; the
-- number typed for a new rule is any whole number. A message is a value of `PageError`.
pub mod Sort
pub mod Invariant
pub mod Move
pub mod Match
mod Tests
use text.Mathlib.Text.{◌==◌ as str_eq}
use aurora_api_gateway.Prelude.{
  ℕ, zero, suc, ◌+◌, ◌-◌, max, String, Bool, true, false, ◌&&◌, ◌||◌, not, Option, none, some, List,
  [], ◌∷◌, ◌++◌, map, leb, ltb, ◌==◌, if◌then◌else◌, length, get_elem?, set, any,
}
use aurora_api_gateway.Prelude.Int.{ℤ, pos, negsuc}
use aurora_api_gateway.Prelude.Text.{is_empty, trim}

pub data AclAction : Type 0 where
  allow deny : AclAction

pub record AclRule : Type 0 where
  pub cidr : String
  pub action : AclAction
  pub priority : ℕ
  pub description : Option String

-- One step of the stable sort by `b.priority - a.priority`: a rule goes in front of those that do
-- not exceed it.
pub insert_rule : AclRule → List AclRule → List AclRule
insert_rule x [] = x ∷ []
insert_rule x (y ∷ ys) = if leb y.priority x.priority then x ∷ y ∷ ys else y ∷ insert_rule x ys

-- `rules.sort((a, b) => b.priority - a.priority)`
unfoldable pub sort_rules : List AclRule → List AclRule
unfolding insert_rule
sort_rules [] = []
sort_rules (x ∷ xs) = insert_rule x (sort_rules xs)

-- `Math.max(...rules.map((r) => r.priority))`, of a list that is not empty.
pub max_priority : List AclRule → ℕ
max_priority [] = 0
max_priority (x ∷ xs) = max x.priority (max_priority xs)

-- The first free priority above all others.
pub next_priority : List AclRule → ℕ
unfolding max_priority
next_priority [] = 1
next_priority (x ∷ xs) = max_priority (x ∷ xs) + 1

-- The messages that the page shows, from the editor of the rules and from the submission.
pub data PageError : Type 0 where
  priority_out_of_range : PageError
  priority_in_use : ℕ → PageError
  name_required port_out_of_range upstream_required endpoint_required : PageError
  failed : String → PageError

pub record AclEditor : Type 0 where
  pub rules : List AclRule
  pub new_priority : ℤ
  pub new_cidr : String
  pub new_action : AclAction
  pub new_description : String
  pub error_msg : Option PageError

unfoldable pub init_editor : AclEditor
init_editor = record {
  rules = [];
  new_priority = pos 1;
  new_cidr = "";
  new_action = allow;
  new_description = "";
  error_msg = none;
}

-- `setAclRules` with a new array, and the effect on `[aclRules]` that follows it: the suggested
-- priority is set anew.
unfoldable pub set_rules : AclEditor → List AclRule → AclEditor
unfolding next_priority
set_rules s rules = record s { rules = rules; new_priority = pos (next_priority rules) }

abbrev pub max_acl_priority : ℕ
max_acl_priority = 1_000_000

-- `trimmed || undefined`
pub optional_text : String → Option String
optional_text s = if is_empty (trim s) then none else some (trim s)

add_rule : AclEditor → ℕ → AclEditor
unfolding optional_text set_rules sort_rules
add_rule s priority = record (set_rules s (sort_rules (s.rules ++ rule ∷ []))) {
  new_cidr = "";
  new_description = "";
}
  where
    rule : AclRule
    rule = record {
      cidr = trim s.new_cidr;
      action = s.new_action;
      priority = priority;
      description = optional_text s.new_description;
    }

-- The checks of the typed priority, and the addition when they pass.
check_priority : AclEditor → ℤ → AclEditor
unfolding add_rule
check_priority s (negsuc n) = record s { error_msg = some priority_out_of_range }
check_priority s (pos n) =
    if ltb n 1 || ltb max_acl_priority n
    then record s { error_msg = some priority_out_of_range }
    else if any (λ r. r.priority == n) s.rules
    then record s { error_msg = some (priority_in_use n) }
    else add_rule s n

unfoldable pub handle_add_acl : AclEditor → AclEditor
unfolding check_priority
handle_add_acl s = if is_empty (trim s.new_cidr) then s else check_priority s s.new_priority

abbrev pub any_address : String
any_address = "0.0.0.0/0"

pub is_deny : AclAction → Bool
is_deny deny = true
is_deny allow = false

pub shift_rule : AclRule → AclRule
shift_rule r = record r { priority = r.priority + 1 }

abbrev pub quick_rule : String → AclAction → String → ℕ → AclRule
quick_rule cidr action desc p = record {
  cidr = cidr;
  action = action;
  priority = p;
  description = some desc;
}

-- A rule that denies every address goes below all others; any other rule goes above them.
unfoldable pub quick_add : String → AclAction → String → List AclRule → List AclRule
unfolding is_deny shift_rule next_priority sort_rules
quick_add cidr action desc prev =
    if is_deny action && str_eq cidr any_address
    then sort_rules (map shift_rule prev ++ quick_rule cidr action desc 1 ∷ [])
    else sort_rules (prev ++ quick_rule cidr action desc (next_priority prev) ∷ [])

unfoldable pub handle_quick_add_rule : AclEditor → String → AclAction → String → AclEditor
unfolding quick_add set_rules
handle_quick_add_rule s cidr action desc = set_rules s (quick_add cidr action desc s.rules)

-- `prev.filter((_, i) => i !== index)`
pub remove_at : ℕ → List AclRule → List AclRule
remove_at i [] = []
remove_at zero (x ∷ xs) = xs
remove_at (suc i) (x ∷ xs) = x ∷ remove_at i xs

unfoldable pub handle_remove_acl : AclEditor → ℕ → AclEditor
unfolding remove_at set_rules
handle_remove_acl s index = set_rules s (remove_at index s.rules)

pub data Direction : Type 0 where
  up down : Direction

-- The two rules exchange their priorities, and the list is sorted again. Past the end there is no
-- rule to move: the buttons pass positions of the list only.
exchange : List AclRule → ℕ → ℕ → Option AclRule → Option AclRule → List AclRule
exchange rs i j (some current) (some adjacent) = sort_rules (
    set (set rs i (record current { priority = adjacent.priority })) j
      (record adjacent { priority = current.priority }))
exchange rs i j _ _ = rs

pub move_rule : List AclRule → ℕ → ℕ → List AclRule
unfolding exchange sort_rules
move_rule rs i j = exchange rs i j (get_elem? rs i) (get_elem? rs j)

unfoldable pub handle_move_rule : AclEditor → ℕ → Direction → AclEditor
unfolding move_rule set_rules
handle_move_rule s index up =
    if index == 0 then s else set_rules s (move_rule s.rules index (index - 1))
handle_move_rule s index down =
    if index + 1 == length s.rules then s else set_rules s (move_rule s.rules index (index + 1))

-- What the user of the editor does.
pub data AclEvent : Type 0 where
  type_priority : ℤ → AclEvent
  type_cidr : String → AclEvent
  pick_action : AclAction → AclEvent
  type_description : String → AclEvent
  add_acl : AclEvent
  quick_add_rule : String → AclAction → String → AclEvent
  remove_acl : ℕ → AclEvent
  move : ℕ → Direction → AclEvent

-- `parseInt(…) || 1`
pub parsed_priority : ℤ → ℤ
parsed_priority (pos zero) = pos 1
parsed_priority n = n

unfoldable pub step : AclEditor → AclEvent → AclEditor
unfolding parsed_priority handle_add_acl handle_quick_add_rule handle_remove_acl handle_move_rule
step s (type_priority n) = record s { new_priority = parsed_priority n }
step s (type_cidr v) = record s { new_cidr = v }
step s (pick_action a) = record s { new_action = a }
step s (type_description v) = record s { new_description = v }
step s add_acl = handle_add_acl s
step s (quick_add_rule cidr action desc) = handle_quick_add_rule s cidr action desc
step s (remove_acl index) = handle_remove_acl s index
step s (move index direction) = handle_move_rule s index direction

unfoldable pub run : AclEditor → List AclEvent → AclEditor
unfolding step
run s [] = s
run s (e ∷ es) = run (step s e) es
