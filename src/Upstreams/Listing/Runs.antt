-- ===== src/Upstreams/Listing/Runs.antt =====
-- The list shows the load that was started last, whatever order the answers come in.
use aurora_api_gateway.Prelude.{
  ℕ, ◌≡◌, false, Option, none, some, List, [], ◌∷◌, ◌++◌, ◌==◌, if◌then◌else◌,
}
use aurora_api_gateway.Upstreams.Answer.{UpstreamItem}
use aurora_api_gateway.Upstreams.Listing.{
  ListAnswer, ListPage, ListEvent, tick, answer, failure, unmount, choose_target, press_delete,
  deleted, delete_failed, is_last, list_step,
}

-- No load starts, the page stays, no deletion fails, and the load of that number does not fail.
abbrev pub IsQuiet : ℕ → ListEvent → Type 0
IsQuiet k tick = ⊥
IsQuiet k (answer n a) = Unit
IsQuiet k (failure n message) = (n == k) ≡ false
IsQuiet k unmount = ⊥
IsQuiet k (choose_target item) = Unit
IsQuiet k press_delete = Unit
IsQuiet k deleted = ⊥
IsQuiet k (delete_failed message) = ⊥

unfoldable pub run_list : ListPage → List ListEvent → ListPage
run_list s [] = s
run_list s (e ∷ es) = run_list (list_step s e) es

-- The answers that are for the load of that number.
abbrev pub own_answer : ℕ → ListEvent → List ListAnswer
own_answer k (answer n a) = if n == k then a ∷ [] else []
own_answer k _ = []

abbrev pub own_answers : ℕ → List ListEvent → List ListAnswer
own_answers k [] = []
own_answers k (e ∷ es) = own_answer k e ++ own_answers k es

-- What a load collects from its answers alone, when they bring it to an end.
unfoldable pub collected : List UpstreamItem → List ListAnswer → Option (List UpstreamItem)
unfolding is_last
collected acc [] = none
collected acc (a ∷ answers) =
    let rest = collected (acc ++ a.items) answers in
    if is_last (acc ++ a.items) a then some (acc ++ a.items) else rest

-- The page shows those items, and loads no more.
pub record Shows (items : List UpstreamItem) (k : ℕ) (s : ListPage) : Type 0 where
  pub upstreams : s.upstreams ≡ items
  pub loading : s.loading ≡ false
  pub latest : s.request_sequence ≡ k
  pub over : s.loads k ≡ none

-- The latest load waits, with those items.
pub record Waits (acc : List UpstreamItem) (k : ℕ) (s : ListPage) : Type 0 where
  pub page : ℕ
  pub latest : s.request_sequence ≡ k
  pub load : s.loads k ≡ some record { page = page; items = acc }
