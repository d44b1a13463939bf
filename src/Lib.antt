-- ===== src/Lib.antt =====
-- Verification of the management console of the Aurora API Gateway (ui/src), its TypeScript part.
--
-- The console is a single-page application. Its pages hold their state in React hooks, change it in
-- handlers, and talk to the controller through the request functions of ui/src/lib/api. What is
-- modelled is the logic of the pages: a state is a record with a field for each hook, a handler is a
-- function from a state to a state, a chain of events is a list, and a request is a value that a
-- handler returns. The answer to a request is a later event. What a page draws is not modelled.
--
-- Parts and files:
--   L4, the pages of the L4 stream gateway (ui/src/pages/l4):
--     L4/Acl: the access rules and the handlers that edit them (`AclEditor`, `step`; `sort_rules` is
--       the stable sort by falling priority). L4/Acl/Sort, Invariant, Move and Match hold its proofs.
--     L4/Service: the form, its submission (`check_form`, `handle_submit`, `settle`) and its loading
--       (`load_service`). L4/Service/Submit and Resubmit hold its proofs.
--     L4/Table: the list of the services (`fetch_data`, `handle_confirm_delete`).
--     L4/Preview: the text of the NGINX block that the form shows.
--   Http: the HTTP client (ui/src/lib/fetcher.ts): `build_url`, the request of a call (`request_of`) and
--     its outcome (`settle_fetch`). Outcome holds its proofs.
--   Login: the form that signs in, with its second factor (ui/src/pages/login/sections/LoginForm.tsx),
--     and the stored token. Reached holds its proofs.
--   Pages, what the list pages have in common:
--     Pages/Loader: loads that overlap, each with a number (`load_step`); a timer and the user start
--       them.
--     Pages/Switch: a switch that is set before its request is answered (`switch_step`).
--     Pages/Deletion: the dialog that asks before a deletion.
--   Extensions, the data plane's extensions (ui/src/pages/extensions):
--     Extensions/Item: an extension as the controller lists it (types.ts).
--     Extensions/Catalog: the records of the catalog and its entries, a definition for each
--       (data/extensionProfiles.ts).
--     Extensions/Profiles: `normalize_extension_key`, and `resolve_extension_profiles`, which merges
--       the profiles of a configuration into the built-in ones. Merge, Order and Keys hold its
--       proofs.
--     Extensions/Editor: the editor of a configuration (components/ExtensionConfigModal.tsx and
--       components/config), which keeps it as a text, as a value and its rules as a list. Schema has
--       the fields of a rule, Manager the profiles (`handle_save_profile`). Synced, Modes and Saved
--       hold its proofs.
--     Extensions/Hub: the list of the extensions (`stats`, `filtered_extensions`).
--   Routes, the pages of the HTTP routes (ui/src/pages/routes):
--     Routes/Switches: the choices of extensions in a route's `plugins_json`
--       (ui/src/pages/routes/sections/RouteExtensionSwitches.tsx). Selection holds its proofs.
--     Routes/Form: the pages that create and edit a route (`check_route`, `submit_route`,
--       `load_route`). Sent holds its proofs.
--     Routes/Table: the list of the routes (`filtered_routes`, `handle_toggle`).
--     Routes/Canvas: the canvas of the routes (`handle_drop_on_route`, `routes_by_host`).
--       Dropped holds its proofs.
--   Certificates, the pages of the certificates (ui/src/pages/certificates):
--     Certificates/Form: the window that installs and edits a certificate (`load_certificate`,
--       `check_certificate`, `handle_submit`). Snis and Resent hold its proofs.
--     Certificates/Listing: the list of the certificates (`filtered_certificates`, `handle_toggle`).
--   Settings, the settings (ui/src/pages/settings):
--     Settings/Security: the providers that may sign a user in and the second factor
--       (`handle_toggle_provider`, `toggle_run`). Active holds its proofs.
--     Settings/Windows: the windows of the security tab.
--   Analytics: the explorer of the analytics (ui/src/pages/analytics): `execute_query`, `add_query`,
--     `handle_select_preset`. Preset has the presets and the ranges, Asking holds its proofs.
--   Upstreams, the pages of the upstreams (ui/src/pages/upstreams):
--     Upstreams/Name: the name under which an upstream is saved. Laws holds its proofs.
--     Upstreams/Pool: the servers and the probes and their handlers (`pool_step`, `probe_step`). A time
--       of `Date.now()` comes with the event. Invariant and Checks hold its proofs.
--     Upstreams/Form: the page that creates an upstream (`handle_create`). Sent holds its proofs.
--     Upstreams/Answer: the upstream that ui/src/lib/api/upstreams.ts makes of the controller's
--       answer.
--     Upstreams/Edit: the page that edits an upstream (`load_upstream`, `handle_update`). Tls and
--       Resubmit hold its proofs.
--     Upstreams/Listing: the list, with its overlapping loads, paging and deletion (`list_step`; a load
--       is known by its number). Latest, Runs and Paging hold its proofs.
--     Upstreams/Filter: the upstreams that the list shows (`filtered`).
--   Prelude: shared names, lists and tests over the native numbers; Prelude/Text has the string
--     methods that the console calls, Prelude/Json its JSON values.
--
-- Bounds and simplifications:
--   Numbers are natural or whole numbers without bound; a fraction in an input that is read by
--   `Number` is not modelled. Texts are lists of Unicode scalar values, `toLowerCase` changes
--   ASCII letters only, and the white space of `trim` and `\s` is that of ECMAScript. `decimal`
--   divides by ten on fuel `n + 1`, which is more than the digits of `n`. `JSON.parse` and
--   `JSON.stringify` are arguments of the definitions that call them (`AclText`, `JsonText`); a
--   theorem that needs one to read back what the other wrote says so for the value at hand. The
--   time of `Date.now()` comes with the event that reads it. A message for the user is a
--   constructor, or the text itself where the code passes on the controller's text.
--
-- Not modelled: what the components draw, the inputs that set one field of a form each, the component
-- library of ui/src/components, the network, the charts and the connections of the analytics, the
-- dashboard, the settings but for the security tab, and the parts of the repository in other languages
-- (the controller in Go, the crates in Rust, the NGINX module in C).
mod Prelude
pub mod Http
pub mod Login
pub mod Pages
pub mod L4
pub mod Extensions
pub mod Routes
pub mod Certificates
pub mod Settings
pub mod Analytics
pub mod Upstreams
