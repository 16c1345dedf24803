-- ===== src/Admitter/Tests.antt =====
-- One review through the plain handlers.
use azure_admission_controll.Prelude.{String, List, [], ◌∷◌, Option, some, ◌≡◌, refl, false, arith}
use azure_admission_controll.Error.{external}
use azure_admission_controll.Result.{ok, err}
use azure_admission_controll.Exec.{Exec, lift}
use azure_admission_controll.Objects.{ObjectMeta}
use azure_admission_controll.Patch.{PatchOperation, patch_add, text}
use azure_admission_controll.Webhook.{Request, status, refused, is_dry_run, mutator_http_handler}
use azure_admission_controll.Webhook.Tests.{request, codec, http}
use azure_admission_controll.Admitter.{extract_name, handler, mutator_handler}
use azure_admission_controll.Admitter.Alike.{reader, mutator_handler-mutator_http_handler}
use azure_admission_controll.Vmcapabilities.{Skus}
use azure_admission_controll.Generic.Tests.{here}
use azure_admission_controll.Example.{cold, plain}

abbrev metadata : String → Option ObjectMeta
metadata _ = some (record (plain "org" "") { generate_name = "np-" })

abbrev patched : Request → Exec Skus (List PatchOperation)
patched _ = lift (ok (patch_add "/spec/location" (text "westeurope") ∷ []))

abbrev refusing : Request → Exec Skus (List PatchOperation)
refusing _ = lift (err (external "no"))

handler_cases :
    (extract_name (reader codec metadata) request ≡ "np")
    × (extract_name (reader codec metadata) (record request { name = "" }) ≡ "np-<generated>")
    × ((handler (reader codec metadata) refusing http cold).0 ≡ ok (refused "1"))
    × ((handler
          (reader codec metadata)
          patched
          (record http { content_type = "text/plain" })
          cold).0
        ≡ ok (status 400))
unfolding extract_name handler
handler_cases = (refl, refl, refl, refl)

no_dry_run :
    (bytes : String) (r : Request)
    → http.body ≡ some bytes
    → codec.decode_review bytes ≡ some (some r)
    → is_dry_run r ≡ false
no_dry_run bytes r read decoded = ground arith

mutator_handler-mutator_http_handler_example :
    mutator_handler (reader codec metadata) patched http cold
    ≡ mutator_http_handler here codec patched http cold
mutator_handler-mutator_http_handler_example =
    mutator_handler-mutator_http_handler here codec metadata patched http cold no_dry_run
