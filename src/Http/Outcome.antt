-- ===== src/Http/Outcome.antt =====
-- What a call of `fetcher` comes to, and what its errors say.
use Prim.Native.String.{[] as nil, ◌∷◌ as cons, ◌++◌}
use Prim.Native.String.append
use mathlib.Core.Bool.{true≢false}
use aurora_api_gateway.Prelude.{
  ℕ, ◌≤◌, ◌<◌, ◌≢◌, ◌≡◌, refl, ap, String, Bool, false, ◌&&◌, Option, none, some, ◌⊎◌, inl, inr, [],
  ◌∷◌, ◌==◌, Bool-cases, ==_iff, arith, leb, ◌∙◌, sym,
}
use aurora_api_gateway.Prelude.Json.{Json, null, bool, num, str, arr, obj, get, truthy}
use aurora_api_gateway.Prelude.Text.{is_empty, decimal, concat}
use aurora_api_gateway.Http.{
  Network, answered, aborted, broken, Response, ResponseData, json_data, text_data, ApiError,
  settle_fetch, response_data, answer_message, is_ok, text_of, first_of, http_message,
  message_field,
}

-- The answer leaves its error without a message: its body is an empty text, or its `message` is a value
-- that prints as an empty text.
abbrev prints_empty : (Json → String) → Option Json → Bool
prints_empty show none = false
prints_empty show (some v) = truthy (some v) && is_empty (text_of show v)

abbrev pub is_silent : (Json → String) → ResponseData → Bool
is_silent show (text_data s) = is_empty s
is_silent show (json_data (str s)) = is_empty s
is_silent show (json_data v) = prints_empty show (message_field v)

-- The outcome of a call, given what `fetch` came to.
pub data IsOutcome (show : Json → String) : Network → ApiError ⊎ ResponseData → Type 0 where
  no_content : (r : Response) → r.status ≡ 204 → IsOutcome show (answered r) (inr (json_data null))
  accepted :
      (r : Response)
      → r.status ≢ 204
      → 200 ≤ r.status
      → r.status ≤ 299
      → IsOutcome show (answered r) (inr (response_data r))
  refused :
      (r : Response) (e : ApiError)
      → (r.status < 200) ⊎ (299 < r.status)
      → e.status ≡ r.status
      → e.data_of ≡ response_data r
      → is_empty e.message ≡ is_silent show (response_data r)
      → IsOutcome show (answered r) (inl e)
  timed_out :
      (e : ApiError) → e.status ≡ 408 → is_empty e.message ≡ false → IsOutcome show aborted (inl e)
  unreachable :
      (message : String) (e : ApiError)
      → e.status ≡ 0
      → is_empty e.message ≡ false
      → IsOutcome show (broken message) (inl e)

is_empty-append : (s t : String) → is_empty s ≡ false → is_empty (s ++ t) ≡ false
is_empty-append nil t h = absurd (ground (arith, h))
is_empty-append (cons c s) t h = ap is_empty (append.cons c s t)

is_empty-first_of :
    (show : Json → String) (v : Option Json) (fallback : String)
    → is_empty fallback ≡ false
    → is_empty (first_of show v fallback) ≡ prints_empty show v
is_empty-first_of show none fallback h = h
is_empty-first_of show (some v) fallback h = elim (Bool-cases (truthy (some v))) [
  | inl given ↦ rw given refl
  | inr falsy ↦ rw falsy h
]

http_message_full :
    (status : ℕ) (status_text : String) → is_empty (http_message status status_text) ≡ false
http_message_full status status_text =
    is_empty-append "HTTP " (concat (decimal status ∷ ": " ∷ status_text ∷ [])) refl

answer_message_silent :
    (show : Json → String) (status : ℕ) (status_text : String) (d : ResponseData)
    → is_empty (answer_message show status status_text d) ≡ is_silent show d
unfolding answer_message
answer_message_silent show status status_text (text_data s) = refl
answer_message_silent show status status_text (json_data null) =
    http_message_full status status_text
answer_message_silent show status status_text (json_data (bool b)) =
    http_message_full status status_text
answer_message_silent show status status_text (json_data (num n)) =
    http_message_full status status_text
answer_message_silent show status status_text (json_data (str s)) = refl
answer_message_silent show status status_text (json_data (arr vs)) =
    http_message_full status status_text
answer_message_silent show status status_text (json_data (obj o)) =
    is_empty-first_of show (get "message" o) (http_message status status_text)
      (http_message_full status status_text)

not_204 : (n : ℕ) → (n == 204) ≡ false → n ≢ 204
not_204 n h same = true≢false (sym ((==_iff n 204).1 same) ∙ h)

out_of_range : (n : ℕ) → (leb 200 n && leb n 299) ≡ false → (n < 200) ⊎ (299 < n)
out_of_range n h = elim (Bool-cases (leb 200 n)) [
  | inl enough ↦ inr (ground (arith, enough, h))
  | inr small ↦ inl (ground (arith, small))
]

-- A call gives nothing for the status 204 and the body for any other status from 200 to 299; else it
-- throws an error with the answer's status and body, with 408 when it was aborted, and with 0 when there
-- was no answer. The message of the error is empty only where the body of the answer is an empty text or
-- has a message that prints as one.
pub settle_fetch-IsOutcome :
    (show : Json → String) (timeout_ms : ℕ) (net : Network)
    → IsOutcome show net (settle_fetch show timeout_ms net)
unfolding settle_fetch
settle_fetch-IsOutcome show timeout_ms aborted =
    timed_out _ refl
      (is_empty-append "Request timed out after " (concat (decimal timeout_ms ∷ "ms" ∷ [])) refl)
settle_fetch-IsOutcome show timeout_ms (broken nil) = unreachable nil _ refl refl
settle_fetch-IsOutcome show timeout_ms (broken (cons c m)) = unreachable (cons c m) _ refl refl
settle_fetch-IsOutcome show timeout_ms (answered r) = elim (Bool-cases (r.status == 204)) [
  | inl empty ↦ rw empty (no_content r ((==_iff r.status 204).0 empty))
  | inr full ↦ elim (Bool-cases (is_ok r)) [
    | inl ok ↦
        rw (full, ok) (accepted r (not_204 r.status full) (ground (arith, ok)) (ground (arith, ok)))
    | inr bad ↦
        rw (full, bad)
          (refused r _ (out_of_range r.status bad) refl refl
            (answer_message_silent show r.status r.status_text (response_data r)))
  ]
]
