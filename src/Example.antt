-- ===== src/Example.antt =====
-- A platform to run the definitions on: versions `major.minor.patch` with an optional suffix
-- `-alpha` or `-v1alpha3`, the names as they are published, and a cluster whose contents are given.
use Prim.Native.Nat.{compare}
use azure_admission_controll.Prelude.{
  ℕ, ◌+◌, ◌*◌, ◌-◌, String, List, [], ◌∷◌, Option, none, some, Bool, true, false, ◌&&◌, ◌||◌, not,
  Ordering, codes, eqb, leb, eqb_codes, first, get, get_or_empty, ascii_lower, if◌then◌else◌, ◌==◌,
  arith, map, keep,
}
use azure_admission_controll.Result.{Result, ok, err, accept}
use azure_admission_controll.Objects.{
  ObjectMeta, Cluster, AzureCluster, AzureMachinePool, Condition, Release,
}
use azure_admission_controll.Platform.{
  Semver, Names, Client, Vendor, Platform, Lookup, found, missing, failed,
}
use azure_admission_controll.Vmcapabilities.{Cache, Skus, ResourceSku}
use azure_admission_controll.Vmcapabilities.Caching.{IsFaithful}
use azure_admission_controll.Releaseversion.Order.{SemverLaws}

pub record Version : Type 0 where
  pub major : ℕ
  pub minor : ℕ
  pub patch : ℕ
  pub alpha : Bool

abbrev then_by : Ordering → Ordering → Ordering
then_by Ordering.eq o = o
then_by o _ = o

abbrev compare_alpha : Bool → Bool → Ordering
compare_alpha true false = Ordering.lt
compare_alpha false true = Ordering.gt
compare_alpha _ _ = Ordering.eq

abbrev compare_version : Version → Version → Ordering
compare_version v w = then_by (compare v.major w.major) (
    then_by (compare v.minor w.minor)
      (then_by (compare v.patch w.patch) (compare_alpha v.alpha w.alpha)))

abbrev is_digit : ℕ → Bool
is_digit c = leb b'0' c && leb c b'9'

-- The number at the head of a text, and what follows it.
abbrev number : ℕ → List ℕ → ℕ × List ℕ
number n [] = (n, [])
number n (c ∷ cs) =
    let rest = number (n * 10 + (c - 48)) cs in if is_digit c then rest else (n, c ∷ cs)

abbrev numeric : List ℕ → Bool
numeric (c ∷ _) = is_digit c
numeric [] = false

abbrev after_dot : List ℕ → Option (List ℕ)
after_dot (c ∷ cs) = if eqb c b'.' && numeric cs then some cs else none
after_dot [] = none

abbrev finish : ℕ → ℕ → ℕ → List ℕ → Option Version
finish a b c [] = some (record { major = a; minor = b; patch = c; alpha = false })
finish a b c rest =
    if eqb_codes rest (codes "-alpha") || eqb_codes rest (codes "-v1alpha3")
    then some (record { major = a; minor = b; patch = c; alpha = true })
    else none

abbrev parse_codes : List ℕ → Option Version
parse_codes cs =
    let (a, after_a) = number 0 cs in
    if not (numeric cs) then none else elim (after_dot after_a) [
      | none ↦ none
      | some bs ↦
          let (b, after_b) = number 0 bs in
          elim (after_dot after_b) [
            | none ↦ none
            | some ds ↦ let (c, after_c) = number 0 ds in finish a b c after_c
          ]
    ]

abbrev drop_v : List ℕ → List ℕ
drop_v (c ∷ cs) = if eqb c b'v' then cs else c ∷ cs
drop_v [] = []

abbrev pub semver : Semver
semver = record {
  Version = Version;
  major = λ v. v.major;
  minor = λ v. v.minor;
  compare = compare_version;
  to_string = λ v. if v.alpha then "alpha" else "";
  parse = λ s. parse_codes (codes s);
  parse_tolerant = λ s. parse_codes (drop_v (codes s));
}

pub semver-SemverLaws : SemverLaws semver
semver-SemverLaws = record {
  lt_of_gt = λ v w h. ground arith;
  major_le = λ v w h. ground arith;
  minor_le = λ v w h e. ground arith;
}

abbrev pub names : Names
names = record {
  release_version = "release.giantswarm.io/version";
  organization = "giantswarm.io/organization";
  cluster_label = "giantswarm.io/cluster";
  capi_cluster_name = "cluster.x-k8s.io/cluster-name";
  azure_operator_version = "azure-operator.giantswarm.io/version";
  cluster_operator_version = "cluster-operator.giantswarm.io/version";
  update_schedule_target_time = "alpha.giantswarm.io/update-schedule-target-time";
  update_schedule_target_release = "alpha.giantswarm.io/update-schedule-target-release";
  node_pool_min_size = "cluster.k8s.io/cluster-api-autoscaler-node-group-min-size";
  node_pool_max_size = "cluster.k8s.io/cluster-api-autoscaler-node-group-max-size";
  creating_condition = "Creating";
  upgrading_condition = "Upgrading";
  condition_true = "True";
  condition_false = "False";
  condition_unknown = "Unknown";
  state_deprecated = "deprecated";
  standard_lrs = "Standard_LRS";
  premium_lrs = "Premium_LRS";
}

abbrev find_condition : String → List Condition → Option Condition
find_condition t cs = first (λ c. c.type == t) cs

abbrev has_status : Option Condition → String → Bool
has_status none s = false
has_status (some c) s = c.status == s

abbrev pub vendor : Vendor
vendor = record {
  validate_create_cluster = λ _. accept;
  validate_update_cluster = λ _ _. accept;
  validate_create_azure_cluster = λ _. accept;
  validate_update_azure_cluster = λ _ _. accept;
  validate_create_machine_pool = λ _. accept;
  validate_update_machine_pool = λ _ _. accept;
  validate_create_azure_machine_pool = λ _. accept;
  validate_update_azure_machine_pool = λ _ _. accept;
  validate_create_azure_machine = λ _. accept;
  validate_update_azure_machine = λ _ _. accept;
  get_condition = λ c t. find_condition t c.conditions;
  is_condition_true = λ c t. has_status (find_condition t c.conditions) "True";
  quantity_eq = λ a b. a == b;
  default_patches = λ _. ok [];
  rune_to_lower = ascii_lower;
  rune_is_digit = is_digit;
}

abbrev lookup_by {ℓ} : {A : Type ℓ} → (A → Bool) → List A → Lookup A
lookup_by p xs = elim (first p xs) [ none ↦ missing | some a ↦ found a ]

-- What an API server holds.
pub record Contents : Type 0 where
  pub releases : List Release
  pub organizations : List String
  pub clusters : List Cluster
  pub azure_clusters : List AzureCluster
  pub azure_machine_pools : List AzureMachinePool

abbrev is_named : String → String → ObjectMeta → Bool
is_named namespace name m = m.namespace == namespace && m.name == name

abbrev pub plain : String → String → ObjectMeta
plain namespace name = record {
  name = name;
  generate_name = "";
  namespace = namespace;
  labels = [];
  annotations = [];
  deletion_timestamp = none;
}

abbrev owner : Lookup Cluster → Result (Option Cluster)
owner (found c) = ok (some c)
owner missing = ok none
owner (failed e) = err e

abbrev client : Contents → Client
client held = record {
  list_releases = ok held.releases;
  list_clusters =
      λ l. ok (keep (λ c. get_or_empty names.cluster_label c.meta.labels == l) held.clusters);
  get_release = λ n. lookup_by (λ r. r.meta.name == n) held.releases;
  get_organization =
      λ n. lookup_by (λ m. eqb_codes (codes m.name) n) (map (λ o. plain "" o) held.organizations);
  get_cluster = λ ns n. lookup_by (λ c. is_named ns n c.meta) held.clusters;
  get_azure_cluster = λ ns n. lookup_by (λ c. is_named ns n c.meta) held.azure_clusters;
  get_azure_machine_pool = λ ns n. lookup_by (λ c. is_named ns n c.meta) held.azure_machine_pools;
  get_owner_cluster = λ m. owner (
      lookup_by (λ c. is_named m.namespace (get_or_empty names.capi_cluster_name m.labels) c.meta)
        held.clusters);
}

abbrev pub platform : Contents → Platform
platform held = record {
  semver = semver;
  names = names;
  client = client held;
  vendor = vendor;
  base_domain = "k8s.example.io";
  location = "westeurope";
}

abbrev pub empty : Contents
empty = record {
  releases = [];
  organizations = [];
  clusters = [];
  azure_clusters = [];
  azure_machine_pools = [];
}

-- A Release CR: its version, whether it is marked as ignored, its state and its azure-operator.
abbrev pub release : String → Bool → String → Release
release name ignored state = record {
  meta = record (plain "" name) {
    annotations = ("release.giantswarm.io/ignore", if ignored then "true" else "false") ∷ [];
  };
  state = state;
  components = record { name = "azure-operator"; version = "5.0.0" } ∷ [];
}

abbrev pub version : ℕ → ℕ → ℕ → Version
version a b c = record { major = a; minor = b; patch = c; alpha = false }

abbrev sku : String → String → String → String → ResourceSku
sku cpus memory networking premium = record {
  name = none;
  capabilities = some (
      record { name = some "vCPUs"; value = some cpus }
      ∷ record { name = some "MemoryGB"; value = some memory }
      ∷ record { name = some "AcceleratedNetworkingEnabled"; value = some networking }
      ∷ record { name = some "PremiumIO"; value = some premium }
      ∷ []);
  location_info = some (record { zones = some ("1" ∷ "2" ∷ []) } ∷ []);
}

-- What Azure lists in this installation: one region, with a large VM size and a small one.
abbrev pub azure : String → Result Cache
azure location =
    if location == "westeurope"
    then ok (
        ("Standard_D4s_v3", sku "4" "16" "True" "True")
        ∷ ("Standard_A2_v2", sku "2" "4" "False" "False")
        ∷ [])
    else ok []

abbrev pub cold : Skus
cold = []

pub cold-IsFaithful : IsFaithful azure cold
unfolding get
cold-IsFaithful = record { at = λ l c h. cc h }
