-- ===== src/Pages/Loader.antt =====
-- Loading a list that a timer and the user ask for again and again: `fetchRoutes` of
-- ui/src/pages/routes/page.tsx, which the pages of the certificates and of the L4 services repeat. Each
-- request has a number, and an answer that is not for the latest request is dropped.
use aurora_api_gateway.Prelude.{
  ℕ, ◌+◌, ◌≡◌, refl, String, Bool, true, false, Option, none, some, List, [], ◌∷◌, ◌==◌, arith,
  if◌then◌else◌, All,
}
use aurora_api_gateway.Prelude.Text.{or_text}

pub record Loader (A : Type 0) : Type 0 where
  pub items : A
  pub loading : Bool
  pub is_refreshing : Bool
  pub error : Option String
  pub request_sequence : ℕ

-- An event of the loader; an answer and a failure come with the number of their request.
pub data LoadEvent (A : Type 0) : Type 0 where
  fetch : Bool → LoadEvent A
  answered : ℕ → A → LoadEvent A
  failed : ℕ → String → LoadEvent A
  unmount : LoadEvent A

module _ {A : Type 0} (fallback : String) where
  unfoldable pub start_fetch : Bool → Loader A → Loader A
  start_fetch show_spin s = record s {
    request_sequence = s.request_sequence + 1;
    is_refreshing = if show_spin then true else s.is_refreshing;
  }

  unfoldable pub take_answer : ℕ → A → Loader A → Loader A
  take_answer seq items s =
      if seq == s.request_sequence
      then record s { items = items; error = none; loading = false; is_refreshing = false }
      else s

  unfoldable pub take_failure : ℕ → String → Loader A → Loader A
  take_failure seq message s =
      if seq == s.request_sequence
      then record s {
        error = some (or_text message fallback);
        loading = false;
        is_refreshing = false;
      }
      else s

  unfoldable pub load_step : Loader A → LoadEvent A → Loader A
  unfolding start_fetch take_answer take_failure
  load_step s (fetch show_spin) = start_fetch show_spin s
  load_step s (answered seq items) = take_answer seq items s
  load_step s (failed seq message) = take_failure seq message s
  load_step s unmount = record s { request_sequence = s.request_sequence + 1 }

  unfoldable pub load_run : Loader A → List (LoadEvent A) → Loader A
  load_run s [] = s
  load_run s (e ∷ es) = load_run (load_step s e) es

  -- An answer or a failure for another request.
  abbrev pub IsStale : ℕ → LoadEvent A → Type 0
  IsStale k (fetch show_spin) = ⊥
  IsStale k (answered seq items) = (seq == k) ≡ false
  IsStale k (failed seq message) = (seq == k) ≡ false
  IsStale k unmount = ⊥

  load_step_stale :
      (s : Loader A) (e : LoadEvent A) → IsStale s.request_sequence e → load_step s e ≡ s
  unfolding load_step
  load_step_stale s (fetch show_spin) h = elim h [ ]
  load_step_stale s (answered seq items) h = rw h refl
  load_step_stale s (failed seq message) h = rw h refl
  load_step_stale s unmount h = elim h [ ]

  load_run_stale :
      (s : Loader A) (es : List (LoadEvent A))
      → All (IsStale s.request_sequence) es
      → load_run s es ≡ s
  unfolding load_run
  load_run_stale s [] h = refl
  load_run_stale s (e ∷ es) (h, hs) = rw (load_step_stale s e h) (load_run_stale s es hs)

-- After a request has been made, whatever answers and failures of earlier requests come before and
-- after its own answer, the list is that of its answer, and nothing is loading.
pub load_run-answered :
    {A : Type 0} (fallback : String) (s : Loader A) (show_spin : Bool) (items : A)
    (before after : List (LoadEvent A))
    → All (IsStale fallback (s.request_sequence + 1)) before
    → All (IsStale fallback (s.request_sequence + 1)) after
    → load_run fallback
        (load_step fallback
          (load_run fallback (load_step fallback s (fetch show_spin)) before)
          (answered (s.request_sequence + 1) items))
        after
      ≡ record {
        items = items;
        loading = false;
        is_refreshing = false;
        error = none;
        request_sequence = s.request_sequence + 1;
      }
unfolding load_step
load_run-answered fallback s show_spin items before after hb ha =
    let same : (s.request_sequence + 1 == s.request_sequence + 1) ≡ true = ground arith in
    rw (load_run_stale fallback (load_step fallback s (fetch show_spin)) before hb)
      (rw same (load_run_stale fallback _ after ha))
