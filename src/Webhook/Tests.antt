-- ===== src/Webhook/Tests.antt =====
-- Well-formed requests through the validating handler.
use azure_admission_controll.Prelude.{none, some, ◌==◌, if◌then◌else◌}
use azure_admission_controll.Error.{parsing_failed}
use azure_admission_controll.Result.{ok, err}
use azure_admission_controll.Objects.{Object, azure_machine_pool}
use azure_admission_controll.Exec.{Exec}
use azure_admission_controll.Vmcapabilities.{Skus}
use azure_admission_controll.Azuremachinepool.{on_create_validate, on_update_validate}
use azure_admission_controll.Azuremachinepool.Tests.{pool}
use azure_admission_controll.Webhook.{Request, HttpRequest, Codec}
use azure_admission_controll.Generic.Tests.{here}
use azure_admission_controll.Example.{azure}

abbrev pub request : Request
request = record {
  uid = "1";
  name = "np";
  object = "{pool}";
  old_object = "{pool}";
  dry_run = none;
}

abbrev pub codec : Codec
codec = record {
  decode = λ raw. if raw == "{pool}" then ok (azure_machine_pool pool) else err parsing_failed;
  decode_review = λ bytes. if bytes == "{review}" then some (some request) else none;
}

abbrev pub http : HttpRequest
http = record { content_type = "application/json"; body = some "{review}" }

abbrev check : Object → Exec Skus (Unit {0})
check object = on_create_validate here azure object

abbrev check_update : Object → Object → Exec Skus (Unit {0})
check_update old object = on_update_validate here azure old object
