-- ===== src/Upstreams/Name/Tests.antt =====
-- Names run through the code.
use mathlib.Core.Path.{◌≡◌, refl}
use aurora_api_gateway.Prelude.Text.{is_empty, trim}
use aurora_api_gateway.Prelude.Text.Laws.{HasNoSpace}
use aurora_api_gateway.Upstreams.Name.{saved_name}
use aurora_api_gateway.Upstreams.Name.Laws.{saved_name_lem}

saved_name_run : saved_name "  Order  Service API " ≡ "order-service-api"
unfolding saved_name
saved_name_run = refl

saved_name_lem_example :
    HasNoSpace (saved_name " Order  Service ")
    × ((is_empty (saved_name " Order  Service ") ≡ is_empty (trim " Order  Service "))
        × (saved_name (saved_name " Order  Service ") ≡ saved_name " Order  Service "))
saved_name_lem_example = saved_name_lem " Order  Service "
