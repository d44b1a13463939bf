-- ===== src/Upstreams/Listing.antt =====
-- The list of the upstreams, in ui/src/pages/upstreams/page.tsx. A load is a chain of requests, one
-- for each page of the answer; loads overlap, since a timer starts one every five seconds, and the
-- answers come in any order.
pub mod Latest
pub mod Runs
pub mod Paging
mod Tests
use text.Mathlib.Text.{◌==◌ as str_eq}
use aurora_api_gateway.Prelude.{
  ℕ, zero, suc, ◌+◌, String, Bool, true, false, ◌&&◌, ◌||◌, not, Option, none, some, List, [], ◌∷◌,
  ◌++◌, leb, ◌==◌, if◌then◌else◌, length, keep,
}
use aurora_api_gateway.Prelude.Text.{or_text}
use aurora_api_gateway.Upstreams.Pool.{UpstreamNode}
use aurora_api_gateway.Upstreams.Answer.{UpstreamItem}

-- A page of the answer.
pub record ListAnswer : Type 0 where
  pub items : List UpstreamItem
  pub total : ℕ

-- A load that waits for an answer: the page that it asked for, and what it has so far.
pub record Load : Type 0 where
  pub page : ℕ
  pub items : List UpstreamItem

-- The loads that wait, by their numbers, and the load that a deletion waits for.
pub record ListPage : Type 0 where
  pub upstreams : List UpstreamItem
  pub loading : Bool
  pub error : Option String
  pub request_sequence : ℕ
  pub loads : ℕ → Option Load
  pub delete_target : Option UpstreamItem
  pub deleting : Bool
  pub delete_load : Option ℕ

abbrev pub init_list_page : ListPage
init_list_page = record {
  upstreams = [];
  loading = true;
  error = none;
  request_sequence = 0;
  loads = λ n. none;
  delete_target = none;
  deleting = false;
  delete_load = none;
}

pub put_load : ℕ → Option Load → (ℕ → Option Load) → ℕ → Option Load
put_load n l loads m = if m == n then l else loads m

-- `fetchUpstreams` up to its first request.
unfoldable pub start_fetch : ListPage → ListPage
unfolding put_load
start_fetch s = record s {
  request_sequence = s.request_sequence + 1;
  loading = true;
  error = none;
  loads = put_load (s.request_sequence + 1) (some record { page = 1; items = [] }) s.loads;
}

-- The test that ends the loop; `items` already holds those of the page.
pub is_last : List UpstreamItem → ListAnswer → Bool
is_last items a = length a.items == 0 || leb a.total (length items)

-- The deletion that waited for the load is over: `finally` of `handleDelete`.
pub end_delete : ListPage → ListPage
end_delete s = record s { deleting = false; delete_target = none; delete_load = none }

pub finish_delete : ℕ → Option ℕ → ListPage → ListPage
unfolding end_delete
finish_delete n none s = s
finish_delete n (some m) s = if m == n then end_delete s else s

-- The end of a load, which is seen on the page if no later load has started.
pub end_load : ℕ → (ListPage → ListPage) → ListPage → ListPage
unfolding put_load finish_delete
end_load n change s =
    let rest = record s { loads = put_load n none s.loads } in
    finish_delete n s.delete_load
      (if n == s.request_sequence then record (change rest) { loading = false } else rest)

abbrev pub show_items : List UpstreamItem → ListPage → ListPage
show_items items s = record s { upstreams = items }

abbrev pub show_failure : String → ListPage → ListPage
show_failure message s = record s {
  error = some (or_text message "Failed to load upstreams from backend");
}

-- The next request of a load, or its end.
pub take_page : ℕ → Load → ListAnswer → ListPage → ListPage
unfolding end_load is_last
take_page n l a s =
    if is_last (l.items ++ a.items) a
    then end_load n (show_items (l.items ++ a.items)) s
    else record s {
      loads = put_load n (some record { page = l.page + 1; items = l.items ++ a.items }) s.loads;
    }

pub on_answer : ℕ → Option Load → ListAnswer → ListPage → ListPage
unfolding take_page
on_answer n none a s = s
on_answer n (some l) a s = take_page n l a s

pub on_failure : ℕ → Option Load → String → ListPage → ListPage
unfolding end_load
on_failure n none message s = s
on_failure n (some l) message s = end_load n (show_failure message) s

-- What happens to the page. An answer and a failure come with the number of their load.
pub data ListEvent : Type 0 where
  tick : ListEvent
  answer : ℕ → ListAnswer → ListEvent
  failure : ℕ → String → ListEvent
  unmount : ListEvent
  choose_target : Option UpstreamItem → ListEvent
  press_delete : ListEvent
  deleted : ListEvent
  delete_failed : String → ListEvent

abbrev start_delete : Option UpstreamItem → ListPage → ListPage
start_delete none s = s
start_delete (some item) s = record s { deleting = true }

unfoldable pub list_step : ListPage → ListEvent → ListPage
unfolding start_fetch on_answer on_failure end_delete
list_step s tick = start_fetch s
list_step s (answer n a) = on_answer n (s.loads n) a s
list_step s (failure n message) = on_failure n (s.loads n) message s
list_step s unmount = record s { request_sequence = s.request_sequence + 1 }
list_step s (choose_target item) = record s { delete_target = item }
list_step s press_delete = start_delete s.delete_target s
list_step s deleted = record (start_fetch s) { delete_load = some (s.request_sequence + 1) }
list_step s (delete_failed message) =
    end_delete (record s { error = some (or_text message "Failed to delete upstream") })

-- The figures above the list.
unfoldable pub total_nodes : List UpstreamItem → ℕ
total_nodes [] = 0
total_nodes (u ∷ us) = length u.servers + total_nodes us

unfoldable pub ssl_protected_count : List UpstreamItem → ℕ
ssl_protected_count us = length (keep (λ u. u.internal_ssl.enabled) us)
