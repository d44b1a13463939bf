-- ===== src/L4/Service/Submit.antt =====
-- What a submission sends and when it is refused.
use aurora_api_gateway.Prelude.{
  ℕ, ◌≤◌, ◌≡◌, ◌≢◌, ◌↔◌, ◌⊎◌, inl, inr, refl, subst, String, true, false, Option, none, some, ltb,
  ◌||◌, Bool-cases, Option-cases, arith,
}
use aurora_api_gateway.Prelude.Int.{ℤ, pos, negsuc}
use aurora_api_gateway.Prelude.Text.{is_empty, trim, or_text}
use aurora_api_gateway.L4.Acl.{
  PageError, sort_rules, name_required, port_out_of_range, upstream_required, endpoint_required,
}
use aurora_api_gateway.L4.Service.{
  L4Form, L4Payload, AclText, Checked, refused, sent, TargetType, upstream, endpoint, checked_port,
  l4_payload, check_target, check_port, check_form, handle_submit, with_error, after_check,
}

checked_port-eq-some :
    (o : Option ℤ) (n : ℕ) → checked_port o ≡ some n → (o ≡ some (pos n)) × (1 ≤ n) × (n ≤ 65535)
unfolding checked_port
checked_port-eq-some none n e = absurd (cc)
checked_port-eq-some (some (negsuc m)) n e = absurd (cc)
checked_port-eq-some (some (pos m)) n e = ground arith

pub checked_port_of_range : (n : ℕ) → 1 ≤ n → n ≤ 65535 → checked_port (some (pos n)) ≡ some n
unfolding checked_port
checked_port_of_range n lo hi = ground arith

module _ (json : AclText) where
  -- The target that the form names, as the payload carries it.
  pub record IsTargetOf (f : L4Form) (p : L4Payload) : Type 0 where
    pub kind : p.forward_target_type ≡ f.target_type
    pub one :
        ((f.target_type ≡ upstream)
          × (p.upstream_name ≡ trim f.upstream_name)
          × (p.direct_endpoint ≡ "")
          × (is_empty p.upstream_name ≡ false))
        ⊎ ((f.target_type ≡ endpoint)
            × (p.direct_endpoint ≡ trim f.endpoint_address)
            × (p.upstream_name ≡ "")
            × (is_empty p.direct_endpoint ≡ false))

  -- What a payload has in common with the form that it was made from.
  pub record IsPayloadOf (f : L4Form) (p : L4Payload) : Type 0 where
    pub name : (p.name ≡ trim f.name) × (is_empty p.name ≡ false)
    pub port : (f.port ≡ some (pos p.listen_port)) × (1 ≤ p.listen_port) × (p.listen_port ≤ 65535)
    pub target : IsTargetOf f p
    pub rules : p.acl_rules_json ≡ json.stringify (sort_rules f.acl.rules)
    pub timeouts :
        (p.proxy_timeout ≡ or_text (trim f.proxy_timeout) "1h")
        × (p.proxy_connect_timeout ≡ or_text (trim f.connect_timeout) "5s")
    pub others :
        (p.protocol ≡ f.protocol) × (p.enabled ≡ f.enabled) × (p.description ≡ trim f.description)

  l4_payload-IsPayloadOf :
      (f : L4Form) (n : ℕ) (u e : String)
      → is_empty (trim f.name) ≡ false
      → checked_port f.port ≡ some n
      → ((f.target_type ≡ upstream) × (u ≡ trim f.upstream_name) × (e ≡ "") × (is_empty u ≡ false))
        ⊎ ((f.target_type ≡ endpoint)
            × (e ≡ trim f.endpoint_address)
            × (u ≡ "")
            × (is_empty e ≡ false))
      → IsPayloadOf f (l4_payload json f n u e)
  unfolding l4_payload
  l4_payload-IsPayloadOf f n u e named port one = record {
    name = (refl, named);
    port = checked_port-eq-some f.port n port;
    target = record { kind = refl; one = one };
    rules = refl;
    timeouts = (refl, refl);
    others = (refl, refl, refl);
  }

  check_target-IsPayloadOf :
      (f : L4Form) (n : ℕ) (p : L4Payload) (t : TargetType)
      → is_empty (trim f.name) ≡ false
      → checked_port f.port ≡ some n
      → f.target_type ≡ t
      → check_target json f n t ≡ sent p
      → IsPayloadOf f p
  unfolding check_target
  check_target-IsPayloadOf f n p upstream named port q h =
      elim (Bool-cases (is_empty (trim f.upstream_name))) [
        | inl blank ↦ absurd (ground arith)
        | inr given ↦
            let same : l4_payload json f n (trim f.upstream_name) "" ≡ p = ground arith in
            subst (IsPayloadOf f) same (
              l4_payload-IsPayloadOf f n (trim f.upstream_name) "" named port
                (inl (q, refl, refl, given)))
      ]
  check_target-IsPayloadOf f n p endpoint named port q h =
      elim (Bool-cases (is_empty (trim f.endpoint_address))) [
        | inl blank ↦ absurd (ground arith)
        | inr given ↦
            let same : l4_payload json f n "" (trim f.endpoint_address) ≡ p = ground arith in
            subst (IsPayloadOf f) same (
              l4_payload-IsPayloadOf f n "" (trim f.endpoint_address) named port
                (inr (q, refl, refl, given)))
      ]

  -- A payload that is sent carries the trimmed name, which is not empty, a port from 1 to 65535,
  -- one target, not empty, with the other left empty, the rules in falling order, timeouts with
  -- their defaults, and the other fields of the form.
  pub check_form-IsPayloadOf :
      (f : L4Form) (p : L4Payload) → check_form json f ≡ sent p → IsPayloadOf f p
  unfolding check_form
  check_form-IsPayloadOf f p h = elim (Bool-cases (is_empty (trim f.name))) [
    | inl blank ↦ absurd (ground arith)
    | inr named ↦ elim (Option-cases (checked_port f.port)) [
      | inl out ↦ absurd (ground arith)
      | inr (n, port) ↦ check_target-IsPayloadOf f n p f.target_type named port refl (ground arith)
    ]
  ]

-- No port from 1 to 65535.
abbrev pub IsBadPort : Option ℤ → Type 0
IsBadPort o = (n : ℕ) → 1 ≤ n → n ≤ 65535 → o ≢ some (pos n)

-- Why a submission is refused: the first problem of the form, and only that.
pub data Refusal (f : L4Form) : PageError → Type 0 where
  no_name : is_empty (trim f.name) ≡ true → Refusal f name_required
  bad_port : is_empty (trim f.name) ≡ false → IsBadPort f.port → Refusal f port_out_of_range
  no_upstream :
      is_empty (trim f.name) ≡ false
      → ¬ IsBadPort f.port
      → f.target_type ≡ upstream
      → is_empty (trim f.upstream_name) ≡ true
      → Refusal f upstream_required
  no_endpoint :
      is_empty (trim f.name) ≡ false
      → ¬ IsBadPort f.port
      → f.target_type ≡ endpoint
      → is_empty (trim f.endpoint_address) ≡ true
      → Refusal f endpoint_required

checked_port-eq-none : (o : Option ℤ) → checked_port o ≡ none → IsBadPort o
unfolding checked_port
checked_port-eq-none none e n lo hi q = cc
checked_port-eq-none (some (negsuc m)) e n lo hi q = cc
checked_port-eq-none (some (pos m)) e n lo hi q = ground arith

checked_port_of_bad : (o : Option ℤ) → IsBadPort o → checked_port o ≡ none
unfolding checked_port
checked_port_of_bad none bad = refl
checked_port_of_bad (some (negsuc m)) bad = refl
checked_port_of_bad (some (pos m)) bad = elim (Bool-cases (ltb m 1 || ltb 65535 m)) [
  | inl out ↦ rw out
  | inr within ↦ absurd (bad m (ground arith) (ground arith) refl)
]

good_port : (o : Option ℤ) (n : ℕ) → checked_port o ≡ some n → ¬ IsBadPort o
good_port o n e bad = let none_too = checked_port_of_bad o bad in cc

checked_port_of_good : (o : Option ℤ) → ¬ IsBadPort o → (n : ℕ) × (checked_port o ≡ some n)
checked_port_of_good o good = elim (Option-cases (checked_port o)) [
  | inl out ↦ absurd (good (checked_port-eq-none o out))
  | inr found ↦ found
]

module _ (json : AclText) (f : L4Form) where
  check_target-Refusal :
      (n : ℕ) (e : PageError) (t : TargetType)
      → is_empty (trim f.name) ≡ false
      → checked_port f.port ≡ some n
      → f.target_type ≡ t
      → check_target json f n t ≡ refused e
      → Refusal f e
  unfolding check_target
  check_target-Refusal n e upstream named port q h =
      elim (Bool-cases (is_empty (trim f.upstream_name))) [
        | inl blank ↦
            let same : upstream_required ≡ e = ground arith in
            subst (Refusal f) same (no_upstream named (good_port f.port n port) q blank)
        | inr given ↦ absurd (ground arith)
      ]
  check_target-Refusal n e endpoint named port q h =
      elim (Bool-cases (is_empty (trim f.endpoint_address))) [
        | inl blank ↦
            let same : endpoint_required ≡ e = ground arith in
            subst (Refusal f) same (no_endpoint named (good_port f.port n port) q blank)
        | inr given ↦ absurd (ground arith)
      ]

  check_form-Refusal : (e : PageError) → check_form json f ≡ refused e → Refusal f e
  unfolding check_form
  check_form-Refusal e h = elim (Bool-cases (is_empty (trim f.name))) [
    | inl blank ↦
        let same : name_required ≡ e = ground arith in subst (Refusal f) same (no_name blank)
    | inr named ↦ elim (Option-cases (checked_port f.port)) [
      | inl out ↦
          let same : port_out_of_range ≡ e = ground arith in
          subst (Refusal f) same (bad_port named (checked_port-eq-none f.port out))
      | inr (n, port) ↦ check_target-Refusal n e f.target_type named port refl (ground arith)
    ]
  ]

  Refusal-check_form : (e : PageError) → Refusal f e → check_form json f ≡ refused e
  unfolding check_form check_port check_target
  Refusal-check_form e (no_name blank) = rw blank
  Refusal-check_form e (bad_port named bad) = ground (arith, checked_port_of_bad f.port bad)
  Refusal-check_form e (no_upstream named good t blank) =
      let (n, port) = checked_port_of_good f.port good in ground arith
  Refusal-check_form e (no_endpoint named good t blank) =
      let (n, port) = checked_port_of_good f.port good in ground arith

  -- A submission is refused with a message exactly when that message names the first problem of
  -- the form: the name, then the port, then the target.
  pub check_form-refused_iff : (e : PageError) → (check_form json f ≡ refused e) ↔ Refusal f e
  check_form-refused_iff e = (check_form-Refusal e, Refusal-check_form e)

  -- A submission makes a request exactly when no check refuses it, and then clears the message and
  -- marks the page as submitting; a refusal shows its message and changes nothing else.
  pub handle_submit-cases :
      ((e : PageError) × Refusal f e × (handle_submit json f ≡ (with_error f (some e), none)))
      ⊎ ((p : L4Payload) × IsPayloadOf json f p
          × (handle_submit json f ≡ (record (with_error f none) { is_submitting = true }, some p)))
  unfolding handle_submit
  handle_submit-cases = split (check_form json f) refl
    where
      split :
          (c : Checked)
          → check_form json f ≡ c
          → ((e : PageError) × Refusal f e × (after_check f c ≡ (with_error f (some e), none)))
            ⊎ ((p : L4Payload) × IsPayloadOf json f p
                × (after_check f c ≡ (record (with_error f none) { is_submitting = true }, some p)))
      split (refused e) h = inl (e, check_form-Refusal e h, refl)
      split (sent p) h = inr (p, check_form-IsPayloadOf json f p h, refl)
