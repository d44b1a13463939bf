-- ===== src/Extensions/Catalog.antt =====
-- The catalog of the extensions of the data plane, `DATAPLANE_EXTENSION_CATALOG` in
-- ui/src/pages/extensions/data/extensionProfiles.ts, in the order of the source.
mod Schema
mod Performance
mod Traffic
mod Security
pub use Schema.*
pub use Performance.*
pub use Traffic.*
pub use Security.*
use mathlib.Core.List.{List, [], ◌∷◌}

abbrev pub dataplane_extension_catalog : List DataplaneExtensionMeta
dataplane_extension_catalog =
    response_cache ∷ response_compression ∷ rate_limit ∷ jwt_authentication ∷ ip_restriction
    ∷ connection_limit ∷ resource_limit ∷ traffic_shaper ∷ []
