-- ===== src/Upstreams/Form/Tests.antt =====
-- Upstreams run through the code that creates them.
use aurora_api_gateway.Prelude.{◌≡◌, ◌⊎◌, refl, arith, true, none, some, [], ◌∷◌, map}
use aurora_api_gateway.Prelude.Text.{is_empty, trim}
use aurora_api_gateway.Upstreams.Form.{
  CreatePage, UpstreamPayload, init_create_page, init_create_form, init_ssl, handle_create,
  submit_form, create_payload, ssl_payload, final_servers, upstream_payload,
}
use aurora_api_gateway.Upstreams.Form.Sent.{IsSendable, handle_create_cases, no_ssl}

abbrev orders_page : CreatePage
orders_page = record init_create_page {
  form = record init_create_form {
    name = "Orders API";
    ssl = record init_ssl { client_key = "KEY"; mtls = true };
  };
}

-- A blank address is filled in, and no key leaves the page while TLS is off.
orders_run :
    (map (λ s. s.address) (create_payload orders_page).servers ≡ "127.0.0.1:8080" ∷ [])
    × ((create_payload orders_page).internal_ssl ≡ no_ssl)
unfolding create_payload upstream_payload ssl_payload final_servers trim
orders_run = (refl, refl)

handle_create_cases_example :
    ((is_empty (trim "Orders API") ≡ true) × (handle_create orders_page ≡ (orders_page, none)))
    ⊎ ((req : UpstreamPayload) × ((handle_create orders_page
            ≡ (record orders_page { form = submit_form orders_page.form }, some req))
          × IsSendable req))
handle_create_cases_example = handle_create_cases orders_page (omega arith)
