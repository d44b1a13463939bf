-- ===== src/Pages/Tests.antt =====
-- Loads and switches run through the code of the list pages.
use aurora_api_gateway.Prelude.{ℕ, ◌+◌, ◌≡◌, refl, String, Bool, true, false, none, List, [], ◌∷◌}
use aurora_api_gateway.Pages.Loader.{
  Loader, fetch, answered, failed, load_step, load_run, load_run-answered,
}
use aurora_api_gateway.Pages.Switch.{
  Switchable, Switching, press, succeed, fail, switch_step, switch_run, set_enabled_of,
  switch_run-fail,
}

abbrev waiting : Loader (List ℕ)
waiting = record {
  items = [];
  loading = true;
  is_refreshing = false;
  error = none;
  request_sequence = 1;
}

load_run-answered_example :
    load_run "?"
      (load_step "?"
        (load_run "?" (load_step "?" waiting (fetch true)) (answered 1 (9 ∷ []) ∷ []))
        (answered (1 + 1) (4 ∷ [])))
      (failed 1 "late" ∷ [])
    ≡ record {
      items = 4 ∷ [];
      loading = false;
      is_refreshing = false;
      error = none;
      request_sequence = 1 + 1;
    }
load_run-answered_example =
    load_run-answered "?" waiting true (4 ∷ []) (answered 1 (9 ∷ []) ∷ []) (failed 1 "late" ∷ [])
      (refl, tt) (refl, tt)

-- Pairs of an id and a switch.
abbrev pairs : Switchable (String × Bool)
pairs = record {
  id = λ x. x.0;
  enabled = λ x. x.1;
  set_enabled = λ b x. (x.0, b);
  id_set = λ b x. refl;
  set_same = λ x. refl;
  set_set = λ b c x. refl;
  enabled_set = λ b x. refl;
}

abbrev two : Switching (String × Bool)
two = record { items = ("a", false) ∷ ("b", true) ∷ []; toggling_ids = [] }

switch_run-fail_example :
    (switch_step pairs
      (switch_run pairs
        (switch_step pairs two (press "a" true))
        (press "b" false ∷ succeed "b" ∷ []))
      (fail "a" true)).items
    ≡ (switch_run pairs two (press "b" false ∷ succeed "b" ∷ [])).items
switch_run-fail_example =
    switch_run-fail pairs two "a" true (press "b" false ∷ succeed "b" ∷ [])
      (unfold set_enabled_of in refl) (refl, (refl, tt))
