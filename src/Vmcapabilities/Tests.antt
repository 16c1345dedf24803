-- ===== src/Vmcapabilities/Tests.antt =====
-- Questions about VM sizes, from an empty cache.
use azure_admission_controll.Prelude.{
  String, Bool, List, [], ◌∷◌, ◌≡◌, refl, true, false, pos, none, some, get, put, arith,
}
use azure_admission_controll.Error.{invalid_request, sku_not_found}
use azure_admission_controll.Result.{ok, err, panic}
use azure_admission_controll.Decimal.{atoi}
use azure_admission_controll.Vmcapabilities.{
  find_capability, zones_of, init_cache, ensure_cache, cached_sku, get_sku, get_capability, cpus,
  memory, has_capability, supported_azs, Cache, ResourceSku, LocationInfo,
}
use azure_admission_controll.Vmcapabilities.Client.{
  SkuClient, list, Walk, AllNamed, last_of, list-Walk,
}
use azure_admission_controll.Vmcapabilities.Once.{SameAnswers, has_capability-SameAnswers}
use azure_admission_controll.Example.{azure, cold}

unfoldable pub runs : Unit {0}
unfolding find_capability zones_of init_cache ensure_cache cached_sku get_sku get_capability cpus
    memory has_capability supported_azs get put atoi
runs = tt

sku_cases :
    ((cpus azure "westeurope" "Standard_D4s_v3" cold).0 ≡ ok (pos 4))
    × ((memory azure "westeurope" "Standard_A2_v2" cold).0 ≡ ok (pos 4))
    × ((has_capability azure "westeurope" "Standard_A2_v2" "PremiumIO" cold).0 ≡ ok false)
    × ((supported_azs azure "westeurope" "Standard_D4s_v3" cold).0 ≡ ok ("1" ∷ "2" ∷ []))
    × ((cpus azure "westeurope" "" cold).0 ≡ err invalid_request)
    × ((cpus azure "northeurope" "Standard_D4s_v3" cold).0 ≡ err sku_not_found)
unfolding runs
sku_cases = (refl, refl, refl, refl, refl, refl)

-- Azure lists two SKUs of one name and one of another.
abbrev sku : String → List LocationInfo → ResourceSku
sku name infos = record { name = some name; capabilities = none; location_info = some infos }

abbrev old_sku : ResourceSku
old_sku = sku "Standard_D4s_v3" []

abbrev new_sku : ResourceSku
new_sku = sku "Standard_D4s_v3" (record { zones = none } ∷ [])

-- The iterator is the list of the SKUs to come.
abbrev at_value : List ResourceSku → ResourceSku
at_value [] = sku "" []
at_value (s ∷ _) = s

abbrev behind : List ResourceSku → List ResourceSku
behind [] = []
behind (_ ∷ rest) = rest

abbrev is_left : List ResourceSku → Bool
is_left [] = false
is_left (_ ∷ _) = true

abbrev client : SkuClient
client = record {
  Iterator = List ResourceSku;
  list_complete = λ filter. ok (old_sku ∷ new_sku ∷ []);
  not_done = is_left;
  value = at_value;
  next = λ skus. ok (behind skus);
}

walk : Walk client (old_sku ∷ new_sku ∷ []) (old_sku ∷ new_sku ∷ []) (ok tt)
walk = Walk.goes _ _ _ _ refl refl (Walk.goes _ _ _ _ refl refl (Walk.done _ refl))

all_named : AllNamed (old_sku ∷ new_sku ∷ [])
all_named = AllNamed.named _ _ _ refl (AllNamed.named _ _ _ refl AllNamed.none_left)

list_case : list client 3 "location eq 'westeurope'" ≡ some (ok (("Standard_D4s_v3", new_sku) ∷ []))
unfolding list put
list_case = refl

list-Walk_example :
    (cache : Cache) × (list client 3 "location eq 'westeurope'" ≡ some (ok cache))
    × ((name : String) → get name cache ≡ last_of name (old_sku ∷ new_sku ∷ []) none)
list-Walk_example =
    list-Walk client "location eq 'westeurope'" (old_sku ∷ new_sku ∷ []) (old_sku ∷ new_sku ∷ [])
      (ok tt) refl walk all_named 3 (omega arith)

answered : (has_capability azure "westeurope" "Standard_A2_v2" "PremiumIO" cold).0 ≡ ok false
unfolding runs
answered = refl

-- From now on Azure panics.
has_capability-SameAnswers_example :
    SameAnswers azure
      (λ _. panic)
      "westeurope"
      "Standard_D4s_v3"
      "PremiumIO"
      (has_capability azure "westeurope" "Standard_A2_v2" "PremiumIO" cold).1
has_capability-SameAnswers_example =
    has_capability-SameAnswers azure (λ _. panic) "westeurope" "Standard_A2_v2" "PremiumIO" cold
      answered "Standard_D4s_v3" "PremiumIO"
