-- ===== src/Pages/Switch.antt =====
-- Switching one element of a list on or off before the controller has answered: `handleToggle` of
-- ui/src/pages/routes/page.tsx, which other list pages repeat. A failure puts the old value back.
use text.Mathlib.Text.{◌==◌ as str_eq}
use text.Mathlib.TextEquality.{eq_iff}
use aurora_api_gateway.Prelude.{
  ◌≡◌, refl, sym, ap, ap₂, ◌∙◌, String, Bool, false, not, List, [], ◌∷◌, map, keep, inl, inr,
  if◌then◌else◌, All, Bool-cases, arith,
}

-- Elements with an id and a switch.
pub record Switchable (A : Type 0) : Type 0 where
  pub id : A → String
  pub enabled : A → Bool
  pub set_enabled : Bool → A → A
  pub id_set : (b : Bool) (x : A) → id (set_enabled b x) ≡ id x
  pub set_same : (x : A) → set_enabled (enabled x) x ≡ x
  pub set_set : (b c : Bool) (x : A) → set_enabled b (set_enabled c x) ≡ set_enabled b x
  pub enabled_set : (b : Bool) (x : A) → enabled (set_enabled b x) ≡ b

-- The ids whose request is under way.
abbrev pub set_flag : String → List String → List String
set_flag id flags = id ∷ keep (λ f. not (str_eq f id)) flags

abbrev pub clear_flag : String → List String → List String
clear_flag id flags = keep (λ f. not (str_eq f id)) flags

module _ {A : Type 0} (sw : Switchable A) where
  pub set_at : String → Bool → A → A
  set_at id b x = if str_eq (sw.id x) id then sw.set_enabled b x else x

  unfoldable pub set_enabled_of : String → Bool → List A → List A
  unfolding set_at
  set_enabled_of id b items = map (set_at id b) items

  -- The elements with the id have that value already.
  abbrev pub HasValue : String → Bool → List A → Type 0
  HasValue id b items = set_enabled_of id b items ≡ items

  set_at_commute :
      (j k : String) (b c : Bool) (x : A)
      → str_eq j k ≡ false
      → set_at j b (set_at k c x) ≡ set_at k c (set_at j b x)
  unfolding set_at
  set_at_commute j k b c x other = elim (Bool-cases (str_eq (sw.id x) j)) [
    | inl e ↦
        let elsewhere : str_eq (sw.id x) k ≡ false =
          ground (arith, eq_iff (sw.id x) j, eq_iff (sw.id x) k, eq_iff j k) in
        rw (elsewhere, e) (rw (sw.id_set b x) (rw elsewhere refl))
    | inr e ↦ elim (Bool-cases (str_eq (sw.id x) k)) [
      | inl here ↦ rw (here, e) (rw (sw.id_set c x) (rw (here, e) refl))
      | inr there ↦ rw (there, e) (rw there refl)
    ]
  ]

  set_at_again : (k : String) (b c : Bool) (x : A) → set_at k b (set_at k c x) ≡ set_at k b x
  unfolding set_at
  set_at_again k b c x = elim (Bool-cases (str_eq (sw.id x) k)) [
    | inl here ↦ rw here (rw (sw.id_set c x) (rw here (sw.set_set b c x)))
    | inr there ↦ rw there (rw there refl)
  ]

  set_enabled_of_commute :
      (j k : String) (b c : Bool) (xs : List A)
      → str_eq j k ≡ false
      → set_enabled_of j b (set_enabled_of k c xs) ≡ set_enabled_of k c (set_enabled_of j b xs)
  unfolding set_enabled_of
  set_enabled_of_commute j k b c [] other = refl
  set_enabled_of_commute j k b c (x ∷ xs) other =
      ap₂ ◌∷◌ (set_at_commute j k b c x other) (set_enabled_of_commute j k b c xs other)

  pub set_enabled_of_again :
      (k : String) (b c : Bool) (xs : List A)
      → set_enabled_of k b (set_enabled_of k c xs) ≡ set_enabled_of k b xs
  unfolding set_enabled_of
  set_enabled_of_again k b c [] = refl
  set_enabled_of_again k b c (x ∷ xs) =
      ap₂ ◌∷◌ (set_at_again k b c x) (set_enabled_of_again k b c xs)

-- The list, and the ids whose request is under way.
pub record Switching (A : Type 0) : Type 0 where
  pub items : List A
  pub toggling_ids : List String

-- A press asks for a value; its request succeeds or fails later.
pub data SwitchEvent : Type 0 where
  press : String → Bool → SwitchEvent
  succeed : String → SwitchEvent
  fail : String → Bool → SwitchEvent

abbrev pub event_id : SwitchEvent → String
event_id (press id b) = id
event_id (succeed id) = id
event_id (fail id b) = id

module _ {A : Type 0} (sw : Switchable A) where
  unfoldable pub switch_step : Switching A → SwitchEvent → Switching A
  unfolding set_enabled_of
  switch_step s (press id b) = record {
    items = set_enabled_of sw id b s.items;
    toggling_ids = set_flag id s.toggling_ids;
  }
  switch_step s (succeed id) = record s { toggling_ids = clear_flag id s.toggling_ids }
  switch_step s (fail id b) = record {
    items = set_enabled_of sw id (not b) s.items;
    toggling_ids = clear_flag id s.toggling_ids;
  }

  unfoldable pub switch_run : Switching A → List SwitchEvent → Switching A
  switch_run s [] = s
  switch_run s (e ∷ es) = switch_run (switch_step s e) es

  -- What the events do to the list alone.
  after : List A → List SwitchEvent → List A
  after items [] = items
  after items (press id b ∷ es) = after (set_enabled_of sw id b items) es
  after items (succeed id ∷ es) = after items es
  after items (fail id b ∷ es) = after (set_enabled_of sw id (not b) items) es

  switch_run_items :
      (s : Switching A) (es : List SwitchEvent) → (switch_run s es).items ≡ after s.items es
  unfolding switch_run switch_step after
  switch_run_items s [] = refl
  switch_run_items s (press id b ∷ es) = switch_run_items (switch_step s (press id b)) es
  switch_run_items s (succeed id ∷ es) = switch_run_items (switch_step s (succeed id)) es
  switch_run_items s (fail id b ∷ es) = switch_run_items (switch_step s (fail id b)) es

  after_commute :
      (k : String) (c : Bool) (xs : List A) (es : List SwitchEvent)
      → All (λ e. str_eq (event_id e) k ≡ false) es
      → after (set_enabled_of sw k c xs) es ≡ set_enabled_of sw k c (after xs es)
  unfolding after
  after_commute k c xs [] h = refl
  after_commute k c xs (press id b ∷ es) (h, hs) =
      ap (λ ys. after ys es) (set_enabled_of_commute sw id k b c xs h)
      ∙ after_commute k c (set_enabled_of sw id b xs) es hs
  after_commute k c xs (succeed id ∷ es) (h, hs) = after_commute k c xs es hs
  after_commute k c xs (fail id b ∷ es) (h, hs) =
      ap (λ ys. after ys es) (set_enabled_of_commute sw id k (not b) c xs h)
      ∙ after_commute k c (set_enabled_of sw id (not b) xs) es hs

-- When a switch is pressed and its request fails, the list is what it would be had the switch not been
-- pressed, whatever presses and answers of other switches come in between, where the elements with its
-- id had the other value.
pub switch_run-fail :
    {A : Type 0} (sw : Switchable A) (s : Switching A) (k : String) (b : Bool)
    (es : List SwitchEvent)
    → HasValue sw k (not b) s.items
    → All (λ e. str_eq (event_id e) k ≡ false) es
    → (switch_step sw (switch_run sw (switch_step sw s (press k b)) es) (fail k b)).items
      ≡ (switch_run sw s es).items
unfolding switch_step
switch_run-fail sw s k b es had others =
    ap (set_enabled_of sw k (not b)) (
      switch_run_items sw (switch_step sw s (press k b)) es
      ∙ after_commute sw k b s.items es others)
    ∙ set_enabled_of_again sw k (not b) b (after sw s.items es)
    ∙ sym (after_commute sw k (not b) s.items es others)
    ∙ ap (λ xs. after sw xs es) had
    ∙ sym (switch_run_items sw s es)
