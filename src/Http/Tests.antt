-- ===== src/Http/Tests.antt =====
-- Calls run through the code of the client.
use aurora_api_gateway.Prelude.{◌≡◌, refl, String, none, some, List, [], ◌∷◌}
use aurora_api_gateway.Prelude.Text.{concat, starts_with_slash, includes, decimal}
use aurora_api_gateway.Http.{
  text_param, number_param, undefined, build_url, search_params, Response, answered, settle_fetch,
}
use aurora_api_gateway.Http.Outcome.{IsOutcome, settle_fetch-IsOutcome}

-- Pairs joined without escapes.
plain : List (String × String) → String
plain [] = ""
plain ((key, value) ∷ rest) = concat (key ∷ "=" ∷ value ∷ plain rest ∷ [])

paged :
    build_url plain "" "api/v1/routes"
      (some (("search", text_param "") ∷ ("limit", number_param 200) ∷ ("page", undefined) ∷ []))
    ≡ "/api/v1/routes?limit=200"
unfolding build_url search_params plain starts_with_slash includes decimal
paged = refl

abbrev gone : Response
gone = record {
  status = 404;
  status_text = "Not Found";
  content_type = some "text/plain";
  json = none;
  text = some "";
}

settle_fetch-IsOutcome_example :
    IsOutcome (λ v. "?") (answered gone) (settle_fetch (λ v. "?") 30000 (answered gone))
settle_fetch-IsOutcome_example = settle_fetch-IsOutcome (λ v. "?") 30000 (answered gone)
