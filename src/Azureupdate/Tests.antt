-- ===== src/Azureupdate/Tests.antt =====
-- Updates of legacy resources.
use azure_admission_controll.Deleting.{DeletedOr}
use azure_admission_controll.Prelude.{String, List, [], ◌∷◌, ℤ, pos, ◌≡◌, refl, ◌↔◌, get}
use azure_admission_controll.Error.{master_cidr_change, availability_zones_change, parsing_failed}
use azure_admission_controll.Result.{Check, ok, err, accept}
use azure_admission_controll.Objects.{
  AzureConfig, AzureClusterConfig, azure_config, azure_cluster_config,
}
use azure_admission_controll.Semverhelper.{get_semver_from_labels, get_semver_from_string}
use azure_admission_controll.Releaseversion.Spec.{Allowed}
use azure_admission_controll.Azureupdate.{
  validate_master_cidr_unchanged, validate_availability_zones_unchanged, get_semver,
  on_update_validate_config, on_update_validate_cluster_config,
}
use azure_admission_controll.Azureupdate.Changes.{
  MayChange, on_update_validate_config-MayChange, on_update_validate_cluster_config-Allowed,
}
use azure_admission_controll.Releaseversion.Tests.{listed}
use azure_admission_controll.Example.{Version, plain}

abbrev config : String → String → List ℤ → AzureConfig
config version cidr zones = record {
  meta = record (plain "default" "abc12") {
    labels = ("release.giantswarm.io/version", version) ∷ [];
  };
  master_subnet_cidr = cidr;
  availability_zones = zones;
}

abbrev first_config : AzureConfig
first_config = config "11.3.0" "10.0.0.0/24" (pos 1 ∷ pos 3 ∷ [])

abbrev updated : AzureConfig → Check
updated new = on_update_validate_config listed (azure_config first_config) (azure_config new)

abbrev legacy : String → AzureClusterConfig
legacy version = record { meta = plain "default" "abc12"; release_version = version }

config_cases :
    (updated (config "11.3.0" "10.0.0.0/24" (pos 3 ∷ pos 1 ∷ [])) ≡ accept)
    × (updated (config "11.3.0" "10.0.1.0/24" (pos 3 ∷ pos 1 ∷ [])) ≡ err master_cidr_change)
    × (updated (config "11.3.0" "10.0.0.0/24" (pos 3 ∷ [])) ≡ err availability_zones_change)
    × (updated (config "11.4.0" "10.0.1.0/24" (pos 3 ∷ [])) ≡ accept)
    × (updated (config "eleven" "10.0.0.0/24" []) ≡ err parsing_failed)
unfolding azure_admission_controll.Releaseversion.Tests.runs on_update_validate_config
    validate_master_cidr_unchanged validate_availability_zones_unchanged get_semver_from_labels
    get_semver_from_string get
config_cases = (refl, refl, refl, refl, refl)

on_update_validate_config-MayChange_example :
    (updated (config "11.4.0" "10.0.1.0/24" []) ≡ accept)
    ↔ DeletedOr
        (config "11.4.0" "10.0.1.0/24" []).meta
        (MayChange listed first_config (config "11.4.0" "10.0.1.0/24" []))
on_update_validate_config-MayChange_example =
    on_update_validate_config-MayChange listed first_config (config "11.4.0" "10.0.1.0/24" [])

on_update_validate_cluster_config-Allowed_example :
    (on_update_validate_cluster_config listed
        (azure_cluster_config (legacy "11.3.0"))
        (azure_cluster_config (legacy "11.4.0"))
      ≡ accept)
    ↔ DeletedOr (legacy "11.4.0").meta (
        (v : Version) × (w : Version) × (get_semver listed "11.3.0" ≡ ok v)
        × (get_semver listed "11.4.0" ≡ ok w)
        × Allowed listed v w)
on_update_validate_cluster_config-Allowed_example =
    on_update_validate_cluster_config-Allowed listed (legacy "11.3.0") (legacy "11.4.0")
