-- ===== src/Upstreams/Pool/Checks.antt =====
-- What the probes keep through every chain of events.
use text.Mathlib.TextEquality.{eq_iff}
use aurora_api_gateway.Prelude.{
  ℕ, zero, suc, ◌≡◌, refl, ◌∙◌, inl, inr, String, Bool, true, false, Option, none, some, List, [],
  ◌∷◌, ◌++◌, keep, any, All, All-append, Bool-cases, arith,
}
use aurora_api_gateway.Prelude.Int.{ℤ, pos, negsuc}
use aurora_api_gateway.Prelude.Text.{is_empty, trim, starts_with_slash}
use aurora_api_gateway.Upstreams.Pool.{
  ProbeCheckItem, ProbeType, readiness, liveness, health, ProbeEditor, ProbeEvent, set_new_type,
  set_new_path, set_new_status, press_add, remove_probe, probe_step, same_check, add_probe,
  formatted, handle_add_probe, handle_remove_probe, same_type, or_number, new_probe,
}
use aurora_api_gateway.Upstreams.Pool.Invariant.{any-append, any-keep}

abbrev pub HasDistinctChecks : List ProbeCheckItem → Type 0
HasDistinctChecks [] = Unit
HasDistinctChecks (p ∷ ps) = (any (same_check p.kind p.path) ps ≡ false) × HasDistinctChecks ps

abbrev pub is_zero : ℤ → Bool
is_zero (pos zero) = true
is_zero _ = false

abbrev pub ExpectsStatus : Option ℤ → Type 0
ExpectsStatus none = ⊥
ExpectsStatus (some n) = is_zero n ≡ false

-- A probe with an absolute path and a status other than zero to wait for.
pub record IsCheck (p : ProbeCheckItem) : Type 0 where
  pub absolute : starts_with_slash p.path ≡ true
  pub status : ExpectsStatus p.expected_status

-- Probes that can be sent: no two make the same check.
pub record IsProbes (ps : List ProbeCheckItem) : Type 0 where
  pub distinct : HasDistinctChecks ps
  pub checks : All IsCheck ps

same_type_sym : (a b : ProbeType) → same_type a b ≡ same_type b a
same_type_sym readiness readiness = refl
same_type_sym readiness liveness = refl
same_type_sym readiness health = refl
same_type_sym liveness readiness = refl
same_type_sym liveness liveness = refl
same_type_sym liveness health = refl
same_type_sym health readiness = refl
same_type_sym health liveness = refl
same_type_sym health health = refl

same_check_sym : (p q : ProbeCheckItem) → same_check p.kind p.path q ≡ same_check q.kind q.path p
unfolding same_check
same_check_sym p q =
    ground (arith, eq_iff p.path q.path, eq_iff q.path p.path, same_type_sym p.kind q.kind)

HasDistinctChecks-append_one :
    (p : ProbeCheckItem) (ps : List ProbeCheckItem)
    → HasDistinctChecks ps
    → any (same_check p.kind p.path) ps ≡ false
    → HasDistinctChecks (ps ++ p ∷ [])
HasDistinctChecks-append_one p [] h fresh = (refl, tt)
HasDistinctChecks-append_one p (q ∷ ps) (d, h) fresh = (
  any-append (same_check q.kind q.path) ps (p ∷ []) ∙ ground (arith, same_check_sym p q),
  HasDistinctChecks-append_one p ps h (ground arith),
)

HasDistinctChecks-keep :
    (q : ProbeCheckItem → Bool) (ps : List ProbeCheckItem)
    → HasDistinctChecks ps
    → HasDistinctChecks (keep q ps)
HasDistinctChecks-keep q [] h = tt
HasDistinctChecks-keep q (p ∷ ps) (d, h) = elim (Bool-cases (q p)) [
  | inl e ↦ rw e (any-keep (same_check p.kind p.path) q ps d, HasDistinctChecks-keep q ps h)
  | inr e ↦ rw e (HasDistinctChecks-keep q ps h)
]

All-keep :
    (P : ProbeCheckItem → Type 0) (q : ProbeCheckItem → Bool) (ps : List ProbeCheckItem)
    → All P ps
    → All P (keep q ps)
All-keep P q [] h = tt
All-keep P q (p ∷ ps) (hp, h) = elim (Bool-cases (q p)) [
  | inl e ↦ rw e (hp, All-keep P q ps h)
  | inr e ↦ rw e (All-keep P q ps h)
]

formatted_absolute : (path : String) → starts_with_slash (formatted path) ≡ true
unfolding formatted
formatted_absolute path = elim (Bool-cases (starts_with_slash path)) [
  | inl e ↦ rw e e
  | inr e ↦ rw e (unfold starts_with_slash in refl)
]

or_number_given : (n m : ℤ) → is_zero m ≡ false → is_zero (or_number n m) ≡ false
or_number_given (pos zero) m h = h
or_number_given (pos (suc n)) m h = refl
or_number_given (negsuc n) m h = refl

add_probe-IsProbes :
    (now : ℕ) (path : String) (e : ProbeEditor)
    → starts_with_slash path ≡ true
    → IsProbes e.probes
    → IsProbes (add_probe now path e).probes
unfolding add_probe
add_probe-IsProbes now path e absolute v =
    elim (Bool-cases (any (same_check e.new_type path) e.probes)) [
      | inl there ↦ rw there v
      | inr fresh ↦ rw fresh record {
        distinct = HasDistinctChecks-append_one (new_probe now path e) e.probes v.distinct fresh;
        checks = All-append IsCheck e.probes (new_probe now path e ∷ []) v.checks (
          record { absolute = absolute; status = or_number_given e.new_status (pos 200) refl },
          tt,
        );
      }
    ]

probe_step-IsProbes :
    (e : ProbeEditor) (ev : ProbeEvent) → IsProbes e.probes → IsProbes (probe_step e ev).probes
unfolding probe_step handle_remove_probe
probe_step-IsProbes e (set_new_type kind) v = v
probe_step-IsProbes e (set_new_path path) v = v
probe_step-IsProbes e (set_new_status n) v = v
probe_step-IsProbes e (press_add now) v =
    unfold handle_add_probe in
    elim (Bool-cases (is_empty (trim e.new_path))) [
      | inl blank ↦ rw blank v
      | inr given ↦ rw given (
          add_probe-IsProbes now (formatted (trim e.new_path)) e
            (formatted_absolute (trim e.new_path)) v)
    ]
probe_step-IsProbes e (remove_probe id) v = record {
  distinct = HasDistinctChecks-keep _ e.probes v.distinct;
  checks = All-keep IsCheck _ e.probes v.checks;
}

unfoldable pub run : ProbeEditor → List ProbeEvent → ProbeEditor
run e [] = e
run e (ev ∷ evs) = run (probe_step e ev) evs

-- Whatever is done on the page that creates an upstream, each probe keeps an absolute path and a
-- status other than zero to wait for, and no two probes have the same type and path.
pub run-IsProbes :
    (e : ProbeEditor) (evs : List ProbeEvent) → IsProbes e.probes → IsProbes (run e evs).probes
unfolding run
run-IsProbes e [] v = v
run-IsProbes e (ev ∷ evs) v = run-IsProbes (probe_step e ev) evs (probe_step-IsProbes e ev v)
