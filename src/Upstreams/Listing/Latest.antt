-- ===== src/Upstreams/Listing/Latest.antt =====
-- The loads that are not the latest change nothing that is seen.
use aurora_api_gateway.Prelude.{
  ℕ, ◌≡◌, refl, ◌∙◌, inl, inr, String, true, false, Option, none, some, ◌++◌, ◌==◌, Bool-cases,
  arith,
}
use aurora_api_gateway.Upstreams.Answer.{UpstreamItem}
use aurora_api_gateway.Upstreams.Listing.{
  ListAnswer, Load, ListPage, put_load, is_last, end_delete, finish_delete, end_load, take_page,
  on_answer, on_failure, start_delete, show_items, show_failure,
}

-- The user sees no difference, and neither does the load of that number.
pub record IsUnseen (k : ℕ) (s t : ListPage) : Type 0 where
  pub upstreams : t.upstreams ≡ s.upstreams
  pub loading : t.loading ≡ s.loading
  pub error : t.error ≡ s.error
  pub request_sequence : t.request_sequence ≡ s.request_sequence
  pub load : t.loads k ≡ s.loads k

pub IsUnseen-refl : (k : ℕ) (s : ListPage) → IsUnseen k s s
IsUnseen-refl k s = record {
  upstreams = refl;
  loading = refl;
  error = refl;
  request_sequence = refl;
  load = refl;
}

pub IsUnseen-trans : (k : ℕ) (s t u : ListPage) → IsUnseen k s t → IsUnseen k t u → IsUnseen k s u
IsUnseen-trans k s t u a b = record {
  upstreams = b.upstreams ∙ a.upstreams;
  loading = b.loading ∙ a.loading;
  error = b.error ∙ a.error;
  request_sequence = b.request_sequence ∙ a.request_sequence;
  load = b.load ∙ a.load;
}

end_delete-IsUnseen : (k : ℕ) (s : ListPage) → IsUnseen k s (end_delete s)
unfolding end_delete
end_delete-IsUnseen k s = record {
  upstreams = refl;
  loading = refl;
  error = refl;
  request_sequence = refl;
  load = refl;
}

pub finish_delete-IsUnseen :
    (k n : ℕ) (m : Option ℕ) (s : ListPage) → IsUnseen k s (finish_delete n m s)
unfolding finish_delete
finish_delete-IsUnseen k n none s = IsUnseen-refl k s
finish_delete-IsUnseen k n (some m) s = elim (Bool-cases (m == n)) [
  | inl e ↦ rw e (end_delete-IsUnseen k s)
  | inr e ↦ rw e (IsUnseen-refl k s)
]

pub put_load_other :
    (k n : ℕ) (l : Option Load) (loads : ℕ → Option Load)
    → (k == n) ≡ false
    → put_load n l loads k ≡ loads k
unfolding put_load
put_load_other k n l loads h = rw h refl

pub put_load_same : (n : ℕ) (l : Option Load) (loads : ℕ → Option Load) → put_load n l loads n ≡ l
unfolding put_load
put_load_same n l loads = let same : (n == n) ≡ true = ground arith in rw same refl

pub changed_load-IsUnseen :
    (k n : ℕ) (l : Option Load) (s : ListPage)
    → (k == n) ≡ false
    → IsUnseen k s (record s { loads = put_load n l s.loads })
changed_load-IsUnseen k n l s h = record {
  upstreams = refl;
  loading = refl;
  error = refl;
  request_sequence = refl;
  load = put_load_other k n l s.loads h;
}

-- The end of a load that is not the latest.
end_load-IsUnseen :
    (n : ℕ) (change : ListPage → ListPage) (s : ListPage)
    → (n == s.request_sequence) ≡ false
    → IsUnseen s.request_sequence s (end_load n change s)
unfolding end_load
end_load-IsUnseen n change s h =
    let other : (s.request_sequence == n) ≡ false = ground arith in
    rw h (
      IsUnseen-trans s.request_sequence s (record s { loads = put_load n none s.loads }) _
        (changed_load-IsUnseen s.request_sequence n none s other)
        (finish_delete-IsUnseen s.request_sequence n s.delete_load _))

take_page-IsUnseen :
    (n : ℕ) (l : Load) (a : ListAnswer) (s : ListPage)
    → (n == s.request_sequence) ≡ false
    → IsUnseen s.request_sequence s (take_page n l a s)
unfolding take_page
take_page-IsUnseen n l a s h = elim (Bool-cases (is_last (l.items ++ a.items) a)) [
  | inl e ↦ rw e (end_load-IsUnseen n (show_items (l.items ++ a.items)) s h)
  | inr e ↦
      let other : (s.request_sequence == n) ≡ false = ground arith in
      rw e (changed_load-IsUnseen s.request_sequence n _ s other)
]

pub on_answer-IsUnseen :
    (n : ℕ) (l : Option Load) (a : ListAnswer) (s : ListPage)
    → (n == s.request_sequence) ≡ false
    → IsUnseen s.request_sequence s (on_answer n l a s)
unfolding on_answer
on_answer-IsUnseen n none a s h = IsUnseen-refl s.request_sequence s
on_answer-IsUnseen n (some l) a s h = take_page-IsUnseen n l a s h

pub on_failure-IsUnseen :
    (n : ℕ) (l : Option Load) (message : String) (s : ListPage)
    → (n == s.request_sequence) ≡ false
    → IsUnseen s.request_sequence s (on_failure n l message s)
unfolding on_failure
on_failure-IsUnseen n none message s h = IsUnseen-refl s.request_sequence s
on_failure-IsUnseen n (some l) message s h = end_load-IsUnseen n (show_failure message) s h

pub start_delete-IsUnseen :
    (k : ℕ) (item : Option UpstreamItem) (s : ListPage) → IsUnseen k s (start_delete item s)
start_delete-IsUnseen k none s = IsUnseen-refl k s
start_delete-IsUnseen k (some item) s = record {
  upstreams = refl;
  loading = refl;
  error = refl;
  request_sequence = refl;
  load = refl;
}
