-- ===== src/App/Table.antt =====
-- The table of paths: what answers each, with the base domain and the location of the flags.
use azure_admission_controll.Prelude.{String, List, [], ◌∷◌}
use azure_admission_controll.Result.{Result}
use azure_admission_controll.Exec.{Exec, lift}
use azure_admission_controll.Objects.{Object}
use azure_admission_controll.Platform.{Platform}
use azure_admission_controll.Patch.{PatchOperation}
use azure_admission_controll.Vmcapabilities.{Cache, Skus}
use azure_admission_controll.Scheduledupgrades.{Clock}
use azure_admission_controll.Webhook.{
  Codec, validate_on_create, validate_on_update, mutate_on_create, mutate_on_update,
  validator_http_handler, mutator_http_handler,
}
use azure_admission_controll.Handler.{Deserializer}
use azure_admission_controll.Config.{Config}
use azure_admission_controll.App.{HttpHandler, ServeMux}
use azure_admission_controll.Cluster as C
use azure_admission_controll.Cluster.Mutation as CM
use azure_admission_controll.Cluster.Handler as CH
use azure_admission_controll.Azurecluster as AC
use azure_admission_controll.Azurecluster.Mutation as ACM
use azure_admission_controll.Azurecluster.Handler as ACH
use azure_admission_controll.Azuremachine as AM
use azure_admission_controll.Azuremachine.Mutation as AMM
use azure_admission_controll.Azuremachine.Handler as AMH
use azure_admission_controll.Azuremachinepool as AMP
use azure_admission_controll.Azuremachinepool.Mutation as AMPM
use azure_admission_controll.Azuremachinepool.Handler as AMPH
use azure_admission_controll.Machinepool as MP
use azure_admission_controll.Machinepool.Mutation as MPM
use azure_admission_controll.Machinepool.Handler as MPH
use azure_admission_controll.Azureupdate as AU
use azure_admission_controll.Azureupdate.Handler as AUH
use azure_admission_controll.Mutator
use azure_admission_controll.Spark

module _ (p : Platform) (d : Deserializer) where
  abbrev pub codec : (String → Result Object) → Codec
  codec decode = record { decode = decode; decode_review = d.review }

  abbrev pub created : Codec → (Object → Exec Skus (Unit {0})) → HttpHandler
  created c f = validator_http_handler p c (validate_on_create p c f)

  abbrev pub updated : Codec → (Object → Object → Exec Skus (Unit {0})) → HttpHandler
  updated c f = validator_http_handler p c (validate_on_update p c f)

  abbrev pub create_patched : Codec → (Object → Exec Skus (List PatchOperation)) → HttpHandler
  create_patched c f = mutator_http_handler p c (mutate_on_create p c f)

  abbrev pub update_patched : Codec → (Object → Exec Skus (List PatchOperation)) → HttpHandler
  update_patched c f = mutator_http_handler p c (mutate_on_update p c (λ _ object. f object))

module _ (p : Platform) (clock : Clock) (azure : String → Result Cache) (d : Deserializer)
    (cfg : Config) where
  -- The platform of this installation: its base domain and its location are those of the flags.
  abbrev pub installed : Platform
  installed = record p { base_domain = cfg.base_domain; location = cfg.location }

  abbrev pub located : Platform
  located = record p { location = cfg.location }

  abbrev pub based : Platform
  based = record p { base_domain = cfg.base_domain }

  -- Every path with what answers it.
  abbrev pub routes : ServeMux
  routes =
      (
        "/validate/azureconfig/update",
        updated p d (codec p d (AUH.decode_azure_config d))
            λ a b. lift (AU.on_update_validate_config p a b),
      )
      ∷ (
        "/validate/azurecluster/create",
        created p d (codec p d (ACH.decode d)) λ a. lift (AC.on_create_validate installed a),
      )
      ∷ (
        "/validate/azurecluster/update",
        updated p d (codec p d (ACH.decode d)) λ a b. lift (AC.on_update_validate installed a b),
      )
      ∷ (
        "/mutate/azurecluster/create",
        create_patched p d (codec p d (ACH.decode d)) λ a. lift (ACM.on_create_mutate installed a),
      )
      ∷ (
        "/mutate/azurecluster/update",
        update_patched p d (codec p d (ACH.decode d)) λ a. lift (ACM.on_update_mutate installed a),
      )
      ∷ (
        "/validate/azureclusterconfig/update",
        updated p d (codec p d (AUH.decode_azure_cluster_config d))
            λ a b. lift (AU.on_update_validate_cluster_config p a b),
      )
      ∷ (
        "/validate/azuremachine/create",
        created p d (codec p d (AMH.decode d)) (AM.on_create_validate located azure),
      )
      ∷ (
        "/validate/azuremachine/update",
        updated p d (codec p d (AMH.decode d)) λ a b. lift (AM.on_update_validate located a b),
      )
      ∷ (
        "/mutate/azuremachine/create",
        create_patched p d (codec p d (AMH.decode d)) λ a. lift (AMM.on_create_mutate located a),
      )
      ∷ (
        "/mutate/azuremachine/update",
        update_patched p d (codec p d (AMH.decode d)) λ a. lift (AMM.on_update_mutate located a),
      )
      ∷ (
        "/validate/azuremachinepool/create",
        created p d (codec p d (AMPH.decode d)) (AMP.on_create_validate located azure),
      )
      ∷ (
        "/validate/azuremachinepool/update",
        updated p d (codec p d (AMPH.decode d)) (AMP.on_update_validate located azure),
      )
      ∷ (
        "/mutate/azuremachinepool/create",
        create_patched p d (codec p d (AMPH.decode d)) (AMPM.on_create_mutate located azure),
      )
      ∷ (
        "/mutate/azuremachinepool/update",
        update_patched p d (codec p d (AMPH.decode d)) λ a. lift (AMPM.on_update_mutate located a),
      )
      ∷ (
        "/validate/cluster/create",
        created p d (codec p d (CH.decode d)) λ a. lift (C.on_create_validate based clock a),
      )
      ∷ (
        "/validate/cluster/update",
        updated p d (codec p d (CH.decode d)) λ a b. lift (C.on_update_validate based clock a b),
      )
      ∷ (
        "/mutate/cluster/create",
        create_patched p d (codec p d (CH.decode d)) λ a. lift (CM.on_create_mutate based a),
      )
      ∷ (
        "/mutate/cluster/update",
        update_patched p d (codec p d (CH.decode d)) λ a. lift (CM.on_update_mutate based a),
      )
      ∷ (
        "/validate/machinepool/create",
        created p d (codec p d (MPH.decode d)) (MP.on_create_validate p azure),
      )
      ∷ (
        "/validate/machinepool/update",
        updated p d (codec p d (MPH.decode d)) λ a b. lift (MP.on_update_validate p a b),
      )
      ∷ (
        "/mutate/machinepool/create",
        create_patched p d (codec p d (MPH.decode d)) λ a. lift (MPM.on_create_mutate p a),
      )
      ∷ (
        "/mutate/machinepool/update",
        update_patched p d (codec p d (MPH.decode d)) λ a. lift (MPM.on_update_mutate p a),
      )
      ∷ (
        "/mutate/spark/create",
        create_patched p d (codec p d (Spark.decode d)) λ a. lift (Mutator.on_create_mutate p a),
      )
      ∷ []
