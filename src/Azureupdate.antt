-- ===== src/Azureupdate.antt =====
-- pkg/azureupdate: the webhooks of the legacy AzureClusterConfig and AzureConfig.
pub mod Handler
pub mod Changes
mod Tests
use azure_admission_controll.Prelude.{
  String, List, [], ◌∷◌, Bool, true, false, not, ◌==◌, ◌&&◌, ℤ, if◌then◌else◌, sort, ints, eqb_ints,
}
use azure_admission_controll.Error.{parsing_failed, master_cidr_change, availability_zones_change}
use azure_admission_controll.Result.{Result, Check, accept, reject_if, or_else, ◌>>=◌, ◌>>◌}
use azure_admission_controll.Objects.{AzureClusterConfig, AzureConfig, Object, is_zero_time}
use azure_admission_controll.Platform.{Platform}
use azure_admission_controll.Key.{to_azure_cluster_config_ptr, to_azure_config_ptr}
use azure_admission_controll.Semverhelper.{get_semver_from_labels, get_semver_from_string}
use azure_admission_controll.Releaseversion.{validate, equals}

unfoldable pub validate_master_cidr_unchanged : AzureConfig → AzureConfig → Check
validate_master_cidr_unchanged old new =
    reject_if
      (not (old.master_subnet_cidr == "") && not (old.master_subnet_cidr == new.master_subnet_cidr))
      master_cidr_change

abbrev is_empty : List ℤ → Bool
is_empty [] = true
is_empty (z ∷ zs) = false

-- `DeepEqual` of two slices that `make` made: neither is nil.
unfoldable pub validate_availability_zones_unchanged : AzureConfig → AzureConfig → Check
validate_availability_zones_unchanged old new =
    if is_empty old.availability_zones
    then accept
    else reject_if
        (not (eqb_ints (sort ints old.availability_zones) (sort ints new.availability_zones)))
        availability_zones_change

module _ (p : Platform) where
  -- `getSemver` is `semver.ParseTolerant`.
  abbrev pub get_semver : String → Result p.Version
  get_semver version = get_semver_from_string p version

  abbrev pub cluster_config_checks : AzureClusterConfig → AzureClusterConfig → Check
  cluster_config_checks old new = do
    old_version ← or_else (get_semver old.release_version) parsing_failed
    new_version ← or_else (get_semver new.release_version) parsing_failed
    if not (equals p old_version new_version) then validate p old_version new_version else accept

  unfoldable pub on_update_validate_cluster_config : Object → Object → Check
  unfolding to_azure_cluster_config_ptr
  on_update_validate_cluster_config old_object object = do
    new ← to_azure_cluster_config_ptr object
    if not (is_zero_time new.meta.deletion_timestamp)
        then accept
        else do old ← to_azure_cluster_config_ptr old_object; cluster_config_checks old new

  -- A change of release returns before the master's CIDR and the zones are looked at.
  abbrev pub config_checks : AzureConfig → AzureConfig → Check
  config_checks old new = do
    old_version ← or_else (get_semver_from_labels p old.meta.labels) parsing_failed
    new_version ← or_else (get_semver_from_labels p new.meta.labels) parsing_failed
    if not (equals p old_version new_version) then validate p old_version new_version else do
      validate_master_cidr_unchanged old new
      validate_availability_zones_unchanged old new

  unfoldable pub on_update_validate_config : Object → Object → Check
  unfolding to_azure_config_ptr
  on_update_validate_config old_object object = do
    new ← to_azure_config_ptr object
    if not (is_zero_time new.meta.deletion_timestamp)
        then accept
        else do old ← to_azure_config_ptr old_object; config_checks old new
