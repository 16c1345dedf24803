-- ===== src/Azuremachinepool/Patching.antt =====
-- What the patches of the mutating webhook make of the fields that it sets.
use azure_admission_controll.Patch.Applying.{
  is_apart, is_apart-path, label_path-elsewhere, apply_maybe,
}
use azure_admission_controll.Patch.Labelling.{SetsLabel, set, unset}
use azure_admission_controll.Prelude.{
  ◌&&◌, String, Option, Bool, true, ◌==◌, ◌≡◌, refl, arith, if◌then◌else◌,
}
use azure_admission_controll.Objects.{AzureMachinePool}
use azure_admission_controll.Patch.{Value, PatchOperation, text, disks}
use azure_admission_controll.Azuremachinepool.Mutation.{storage_path}

abbrev put_location : Value → AzureMachinePool → AzureMachinePool
put_location (text s) mp = record mp { location = s }
put_location _ mp = mp

abbrev put_storage : Value → AzureMachinePool → AzureMachinePool
put_storage (text s) mp = record mp { storage_account_type = s }
put_storage _ mp = mp

abbrev put_disks : Value → AzureMachinePool → AzureMachinePool
put_disks (disks ds) mp = record mp { data_disks = ds }
put_disks _ mp = mp

-- What a patch that is at one of the three paths, or neither above nor below any of them, makes of these
-- fields of an AzureMachinePool.
abbrev pub apply : PatchOperation → AzureMachinePool → AzureMachinePool
apply a mp =
    if a.path == "/spec/location"
    then put_location a.value mp
    else if a.path == storage_path
    then put_storage a.value mp
    else if a.path == "/spec/template/dataDisks"
    then put_disks a.value mp
    else mp

-- A patch leaves the location, the storage account type and the data disks alone.
abbrev pub is_elsewhere : PatchOperation → Bool
is_elsewhere a =
    is_apart "/spec/location" a && is_apart storage_path a && is_apart "/spec/template/dataDisks" a

pub elsewhere-leaves :
    (a : PatchOperation) → is_elsewhere a ≡ true → (mp : AzureMachinePool) → apply a mp ≡ mp
elsewhere-leaves a h mp = ground (
  arith,
  is_apart-path "/spec/location" a refl,
  is_apart-path storage_path a refl,
  is_apart-path "/spec/template/dataDisks" a refl,
)

pub label-leaves :
    (label : String) {m : Option PatchOperation}
    → SetsLabel label m
    → (mp : AzureMachinePool) → apply_maybe apply m mp ≡ mp
label-leaves label unset mp = refl
label-leaves label (set value) mp = ground (
  arith,
  label_path-elsewhere label "/spec/location" refl,
  label_path-elsewhere label storage_path refl,
  label_path-elsewhere label "/spec/template/dataDisks" refl,
)
