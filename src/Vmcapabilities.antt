-- ===== src/Vmcapabilities.antt =====
-- internal/vmcapabilities: what Azure says of VM sizes, fetched once for each location and kept. The
-- state is the field `skus` of VMSKU; the map that it holds for a location is what the API listed.
pub mod Caching
pub mod Client
pub mod Concurrent
pub mod Once
pub mod Tests
use azure_admission_controll.Prelude.{
  String, List, [], ◌∷◌, ◌++◌, Option, none, some, Bool, true, false, ◌==◌, ◌&&◌, Map, get, put, ℤ,
  equal_lower, if◌then◌else◌,
}
use azure_admission_controll.Error.{
  invalid_request, invalid_upstream_response, sku_not_found, external,
}
use azure_admission_controll.Result.{Result, ok, err, panic, reject_if, require, deref}
use azure_admission_controll.Exec.{Exec, lift, pure, ◌>>=◌, ◌>>◌}
use azure_admission_controll.Decimal.{atoi}

abbrev pub capability_supported : String
capability_supported = "True"

abbrev pub capability_accelerated_networking : String
capability_accelerated_networking = "AcceleratedNetworkingEnabled"

abbrev pub capability_premium_io : String
capability_premium_io = "PremiumIO"

abbrev capability_memory : String
capability_memory = "MemoryGB"

abbrev capability_cpus : String
capability_cpus = "vCPUs"

-- The parts of compute.ResourceSku that are read; every field is a pointer.
pub record Capability : Type 0 where
  pub name : Option String
  pub value : Option String

pub record LocationInfo : Type 0 where
  pub zones : Option (List String)

pub record ResourceSku : Type 0 where
  pub name : Option String
  pub capabilities : Option (List Capability)
  pub location_info : Option (List LocationInfo)

abbrev pub Cache : Type 0
Cache = Map ResourceSku

-- The field `skus` of VMSKU.
abbrev pub Skus : Type 0
Skus = Map Cache

abbrev is_empty : String → Bool
is_empty s = s == ""

-- The loop of `getCapability`; a capability without a name is passed over.
unfoldable pub find_capability : String → List Capability → Option String
find_capability name [] = none
find_capability name (c ∷ cs) =
    let rest = find_capability name cs in
    elim c.name [ none ↦ rest | some n ↦ if n == name then c.value else rest ]

-- The loop of `SupportedAZs`.
unfoldable pub zones_of : List LocationInfo → List String
zones_of [] = []
zones_of (l ∷ ls) = elim l.zones [ none ↦ zones_of ls | some zones ↦ zones ++ zones_of ls ]

-- `Azure` lists the SKUs that a filter selects. The filter names a location and nothing else, so the
-- service is a function of the location.
module _ (azure : String → Result Cache) where
  unfoldable pub init_cache : String → Exec Skus (Unit {0})
  unfolding put
  init_cache location skus = elim (azure location) [
    | ok listed ↦ (ok tt, put location listed skus)
    | err e ↦ (err e, skus)
    | panic ↦ (panic, skus)
  ]

  -- The cache is filled on the first question about a location.
  unfoldable pub ensure_cache : String → Exec Skus (Unit {0})
  unfolding init_cache get
  ensure_cache location skus = elim (get location skus) [
    | some _ ↦ (ok tt, skus)
    | none ↦ init_cache location skus
  ]

  -- `v.skus[location][vmType]`
  unfoldable pub cached_sku : String → String → Exec Skus ResourceSku
  unfolding get
  cached_sku location vm_type skus = (
    elim (get location skus) [
      | none ↦ err sku_not_found
      | some cache ↦ require (get vm_type cache) sku_not_found
    ],
    skus,
  )

  unfoldable pub get_sku : String → String → Exec Skus ResourceSku
  get_sku location vm_type = do
    lift (reject_if (is_empty location) invalid_request)
    lift (reject_if (is_empty vm_type) invalid_request)
    ensure_cache location
    cached_sku location vm_type

  unfoldable pub get_capability : String → String → String → Exec Skus (Option String)
  unfolding find_capability
  get_capability location vm_type name = do
    lift (reject_if (is_empty name) invalid_request)
    sku ← get_sku location vm_type
    pure (elim sku.capabilities [ none ↦ none | some cs ↦ find_capability name cs ])

  -- The common body of `CPUs` and `Memory`.
  abbrev number_of : Option String → Result ℤ
  number_of none = err invalid_upstream_response
  number_of (some text) = require (atoi text) invalid_upstream_response

  unfoldable pub cpus : String → String → Exec Skus ℤ
  cpus location vm_type = do
    capability ← get_capability location vm_type capability_cpus
    lift (number_of capability)

  unfoldable pub memory : String → String → Exec Skus ℤ
  memory location vm_type = do
    capability ← get_capability location vm_type capability_memory
    lift (number_of capability)

  abbrev supported : Option String → Bool
  supported none = false
  supported (some value) = equal_lower value capability_supported

  unfoldable pub has_capability : String → String → String → Exec Skus Bool
  has_capability location vm_type name = do
    capability ← get_capability location vm_type name
    pure (supported capability)

  -- An error of `getSKU` gives no zones and no error; a nil `LocationInfo` is dereferenced.
  abbrev zones_or_none : Result ResourceSku → Result (List String)
  zones_or_none (ok sku) = elim sku.location_info [ none ↦ panic | some ls ↦ ok (zones_of ls) ]
  zones_or_none (err _) = ok []
  zones_or_none panic = panic

  unfoldable pub supported_azs : String → String → Exec Skus (List String)
  unfolding zones_of
  supported_azs location vm_type skus =
      let (sku, skus') = get_sku location vm_type skus in (zones_or_none sku, skus')
