-- ===== src/Azuremachinepool/Defaults.antt =====
-- The defaults that the mutating webhook of AzureMachinePools sets are those that the validating one
-- asks for.
use azure_admission_controll.Result.{Result}
use azure_admission_controll.Platform.{Platform}
