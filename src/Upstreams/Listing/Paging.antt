-- ===== src/Upstreams/Listing/Paging.antt =====
-- A load shows every page of the list that the controller holds.
use aurora_api_gateway.Prelude.{ℕ, List, [], ◌∷◌, ◌++◌}
use aurora_api_gateway.Upstreams.Answer.{UpstreamItem}
use aurora_api_gateway.Upstreams.Listing.{ListAnswer}

abbrev pub all_items : List (List UpstreamItem) → List UpstreamItem
all_items [] = []
all_items (p ∷ ps) = p ++ all_items ps

-- An answer with one page, and the number of all items.
abbrev pub page_answer : ℕ → List UpstreamItem → ListAnswer
page_answer total p = record { items = p; total = total }
