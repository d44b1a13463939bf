-- ===== src/Upstreams/Edit/Tests.antt =====
-- Upstreams run through the code that edits them.
use aurora_api_gateway.Prelude.{◌≡◌, refl, true, false}
use aurora_api_gateway.Upstreams.Form.{
  CreatePage, init_create_page, init_create_form, create_payload, upstream_payload,
}
use aurora_api_gateway.Upstreams.Answer.{normalize_upstream}
use aurora_api_gateway.Upstreams.Edit.{update_payload, load_upstream}
use aurora_api_gateway.Upstreams.Edit.Resubmit.{IsResent, reopened, update_payload-IsResent}

-- A load balancer with the refreshing of DNS switched off.
abbrev static_page : CreatePage
static_page = record init_create_page {
  form = record init_create_form { name = "static pool"; dynamic_dns = false };
}

static_run :
    ((create_payload static_page).dynamic_dns ≡ false)
    × ((update_payload (reopened 3 (create_payload static_page))).dynamic_dns ≡ true)
unfolding create_payload upstream_payload update_payload load_upstream normalize_upstream
static_run = (refl, refl)

update_payload-IsResent_example :
    IsResent (create_payload static_page) (update_payload (reopened 3 (create_payload static_page)))
update_payload-IsResent_example = update_payload-IsResent 3 static_page
