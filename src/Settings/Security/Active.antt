-- ===== src/Settings/Security/Active.antt =====
-- That one provider is always on.
use text.Mathlib.Text.{◌==◌ as str_eq}
use text.Mathlib.TextEquality.{eq_iff}
use mathlib.Core.Option.{some-injective}
use aurora_api_gateway.Prelude.{
  ◌+◌, ◌≤◌, ◌≡◌, refl, sym, subst, ap, ap₂, ◌∙◌, String, Bool, true, false, not, ◌&&◌, Option, none,
  some, inl, inr, List, [], ◌∷◌, find, leb, if◌then◌else◌, All, Bool-cases, arith,
}
use aurora_api_gateway.Pages.Switch.{set_enabled_of, set_enabled_of_again}
use aurora_api_gateway.Settings.Security.{
  AuthProviderItem, SecurityTab, provider_switch, active_providers_count, is_last_active,
  handle_toggle_provider, settle_toggle, toggle_found, toggle_provider, toggle_run,
}

abbrev named_by : String → List AuthProviderItem → Option AuthProviderItem
named_by id ps = find (λ p. str_eq p.id id) ps

-- No two providers have the same id.
abbrev pub AreDistinct : List AuthProviderItem → Type 0
AreDistinct [] = Unit
AreDistinct (p ∷ ps) = All (λ q. str_eq q.id p.id ≡ false) ps × AreDistinct ps

unnamed_same :
    (k : String) (b : Bool) (ps : List AuthProviderItem)
    → All (λ q. str_eq q.id k ≡ false) ps
    → set_enabled_of provider_switch k b ps ≡ ps
unfolding set_enabled_of
unnamed_same k b [] h = refl
unnamed_same k b (p ∷ ps) (other, h) = rw other (ap (λ qs. p ∷ qs) (unnamed_same k b ps h))

-- Putting back the value that a provider has changes nothing.
put_back :
    (k : String) (p : AuthProviderItem) (ps : List AuthProviderItem)
    → AreDistinct ps
    → named_by k ps ≡ some p
    → set_enabled_of provider_switch k p.enabled ps ≡ ps
unfolding set_enabled_of
put_back k p [] d h = refl
put_back k p (q ∷ ps) (apart, d) h = elim (Bool-cases (str_eq q.id k)) [
  | inl here ↦
      let same : q ≡ p =
        some-injective q p (sym (ap (λ b. if b then some q else named_by k ps) here) ∙ h) in
      let id_same : q.id ≡ k = (eq_iff q.id k).0 here in
      rw here (
        ap₂ ◌∷◌ (λ i. record q { enabled = (sym same i).enabled })
          (unnamed_same k p.enabled ps
            (subst (λ j. All (λ r. str_eq r.id j ≡ false) ps) id_same apart)))
  | inr other ↦ rw other (
      ap (λ qs. q ∷ qs)
        (put_back k p ps d (sym (ap (λ b. if b then some q else named_by k ps) other) ∙ h)))
]

active_off :
    (k : String) (p : AuthProviderItem) (ps : List AuthProviderItem)
    → AreDistinct ps
    → named_by k ps ≡ some p
    → p.enabled ≡ true
    → active_providers_count (set_enabled_of provider_switch k false ps) + 1
      ≡ active_providers_count ps
unfolding set_enabled_of active_providers_count
active_off k p [] d h on = absurd (ground (arith, h))
active_off k p (q ∷ ps) (apart, d) h on = elim (Bool-cases (str_eq q.id k)) [
  | inl here ↦
      let same : q ≡ p =
        some-injective q p (sym (ap (λ b. if b then some q else named_by k ps) here) ∙ h) in
      let lit : q.enabled ≡ true = ap (λ r. r.enabled) same ∙ on in
      let id_same : q.id ≡ k = (eq_iff q.id k).0 here in
      rw
        (
          here,
          lit,
          unnamed_same k false ps (subst (λ j. All (λ r. str_eq r.id j ≡ false) ps) id_same apart),
        )
        (omega arith)
  | inr other ↦
      let rest =
        active_off k p ps d (sym (ap (λ b. if b then some q else named_by k ps) other) ∙ h) on in
      elim (Bool-cases (q.enabled)) [
        | inl lit ↦ rw (other, lit) (omega (arith, rest))
        | inr dark ↦ rw (other, dark) rest
      ]
]

active_on :
    (k : String) (p : AuthProviderItem) (ps : List AuthProviderItem)
    → named_by k ps ≡ some p
    → 1 ≤ active_providers_count (set_enabled_of provider_switch k true ps)
unfolding set_enabled_of active_providers_count
active_on k p [] h = absurd (ground (arith, h))
active_on k p (q ∷ ps) h = elim (Bool-cases (str_eq q.id k)) [
  | inl here ↦ rw here (omega arith)
  | inr other ↦
      let rest = active_on k p ps (sym (ap (λ b. if b then some q else named_by k ps) other) ∙ h) in
      elim (Bool-cases (q.enabled)) [
        | inl lit ↦ rw (other, lit) (omega arith)
        | inr dark ↦ rw (other, dark) rest
      ]
]

-- Setting a switch leaves the ids.
apart-set_enabled_of :
    (j k : String) (b : Bool) (ps : List AuthProviderItem)
    → All (λ q. str_eq q.id j ≡ false) ps
    → All (λ q. str_eq q.id j ≡ false) (set_enabled_of provider_switch k b ps)
unfolding set_enabled_of
apart-set_enabled_of j k b [] h = tt
apart-set_enabled_of j k b (q ∷ ps) (h, hs) = elim (Bool-cases (str_eq q.id k)) [
  | inl here ↦ rw here (h, apart-set_enabled_of j k b ps hs)
  | inr other ↦ rw other (h, apart-set_enabled_of j k b ps hs)
]

set_enabled_of-AreDistinct :
    (k : String) (b : Bool) (ps : List AuthProviderItem)
    → AreDistinct ps
    → AreDistinct (set_enabled_of provider_switch k b ps)
unfolding set_enabled_of
set_enabled_of-AreDistinct k b [] d = tt
set_enabled_of-AreDistinct k b (q ∷ ps) (apart, d) = elim (Bool-cases (str_eq q.id k)) [
  | inl here ↦ rw here (apart-set_enabled_of q.id k b ps apart, set_enabled_of-AreDistinct k b ps d)
  | inr other ↦
      rw other (apart-set_enabled_of q.id k b ps apart, set_enabled_of-AreDistinct k b ps d)
]

-- At least one provider is on, and no two have the same id.
pub record IsOpen (ps : List AuthProviderItem) : Type 0 where
  pub active : 1 ≤ active_providers_count ps
  pub distinct : AreDistinct ps

found_id :
    (k : String) (p : AuthProviderItem) (ps : List AuthProviderItem)
    → named_by k ps ≡ some p
    → k ≡ p.id
found_id k p [] h = absurd (ground (arith, h))
found_id k p (q ∷ ps) h = elim (Bool-cases (str_eq q.id k)) [
  | inl here ↦
      let same : q ≡ p =
        some-injective q p (sym (ap (λ b. if b then some q else named_by k ps) here) ∙ h) in
      sym ((eq_iff q.id k).0 here) ∙ ap (λ r. r.id) same
  | inr other ↦ found_id k p ps (sym (ap (λ b. if b then some q else named_by k ps) other) ∙ h)
]

set_enabled_of-IsOpen :
    (p : AuthProviderItem) (ps : List AuthProviderItem)
    → IsOpen ps
    → named_by p.id ps ≡ some p
    → (p.enabled && leb (active_providers_count ps) 1) ≡ false
    → IsOpen (set_enabled_of provider_switch p.id (not p.enabled) ps)
set_enabled_of-IsOpen p ps v h more = record {
  active = elim (Bool-cases (p.enabled)) [
    | inl lit ↦
        let less = active_off p.id p ps v.distinct h lit in rw lit (ground (arith, less, more, lit))
    | inr dark ↦ rw dark (active_on p.id p ps h)
  ];
  distinct = set_enabled_of-AreDistinct p.id (not p.enabled) ps v.distinct;
}

toggle_found-IsOpen :
    (s : SecurityTab) (p : AuthProviderItem) (answer : Option String)
    → IsOpen s.providers
    → named_by p.id s.providers ≡ some p
    → IsOpen (toggle_found (some p) answer s).providers
unfolding handle_toggle_provider settle_toggle is_last_active
toggle_found-IsOpen s p none v h = elim (Bool-cases (is_last_active p s)) [
  | inl last ↦ rw last v
  | inr more ↦ rw more (set_enabled_of-IsOpen p s.providers v h more)
]
toggle_found-IsOpen s p (some message) v h = elim (Bool-cases (is_last_active p s)) [
  | inl last ↦ rw last v
  | inr more ↦ rw more (
      subst IsOpen
        (sym (
          set_enabled_of_again provider_switch p.id p.enabled (not p.enabled) s.providers
          ∙ put_back p.id p s.providers v.distinct h))
        v)
]

toggle_provider-IsOpen :
    (s : SecurityTab) (id : String) (answer : Option String) (o : Option AuthProviderItem)
    → named_by id s.providers ≡ o
    → IsOpen s.providers
    → IsOpen (toggle_found o answer s).providers
toggle_provider-IsOpen s id answer none e v = v
toggle_provider-IsOpen s id answer (some p) e v =
    toggle_found-IsOpen s p answer v
      (subst (λ k. named_by k s.providers ≡ some p) (found_id id p s.providers e) e)

-- While each switch of a provider is answered before the next is pressed, whatever the answers, at
-- least one provider stays on and their ids stay distinct, from a list of which both hold.
pub toggle_run-IsOpen :
    (s : SecurityTab) (events : List (String × Option String))
    → IsOpen s.providers
    → IsOpen (toggle_run s events).providers
unfolding toggle_run toggle_provider
toggle_run-IsOpen s [] v = v
toggle_run-IsOpen s ((id, answer) ∷ rest) v =
    toggle_run-IsOpen (toggle_provider id answer s) rest
      (toggle_provider-IsOpen s id answer (named_by id s.providers) refl v)
