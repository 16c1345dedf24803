-- ===== src/Semverhelper.antt =====
-- internal/semverhelper/semver.go: the release version that a resource's labels name.
use azure_admission_controll.Prelude.{String, Map, get}
use azure_admission_controll.Error.{parsing_failed, external}
use azure_admission_controll.Result.{Result, require, ◌>>=◌}
use azure_admission_controll.Platform.{Platform}

module _ (p : Platform) where
  unfoldable pub get_semver_from_string : String → Result p.Version
  get_semver_from_string version = require (p.parse_tolerant version) (external "semver")

  unfoldable pub get_semver_from_labels : Map String → Result p.Version
  unfolding get_semver_from_string get
  get_semver_from_labels labels = do
    version ← require (get p.names.release_version labels) parsing_failed
    get_semver_from_string version
