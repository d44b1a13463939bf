-- ===== src/Pages/Deletion.antt =====
-- The dialog that asks before a deletion:
-- ui/src/pages/routes/sections/DeleteRouteDialog.tsx and
-- ui/src/pages/certificates/sections/DeleteCertificateDialog.tsx.
use aurora_api_gateway.Prelude.{String, Bool, true, false, Option, none, some}
use aurora_api_gateway.Prelude.Text.{or_text}

pub record DeleteDialog : Type 0 where
  pub submitting : Bool
  pub error : Option String

-- `handleDelete` up to its request.
unfoldable pub handle_delete : DeleteDialog → DeleteDialog
handle_delete d = record { submitting = true; error = none }

-- The answer to the request: `none` is success, which closes the dialog.
unfoldable pub settle_delete : String → Option String → DeleteDialog → DeleteDialog
settle_delete fallback none d = record d { submitting = false }
settle_delete fallback (some message) d = record {
  submitting = false;
  error = some (or_text message fallback);
}
