-- ===== src/Azuremachinepool/Create.antt =====
-- Which AzureMachinePools the webhook admits on creation.
use azure_admission_controll.Prelude.{String, ◌≡◌, ◌↔◌, arith, eq_iff, sym, ◌∙◌}
use azure_admission_controll.Result.{Result, Check, accept, ◌>>◌}
use azure_admission_controll.Objects.{AzureMachinePool, azure_machine_pool}
use azure_admission_controll.Platform.{Platform}
use azure_admission_controll.Generic.{validate_organization_label_matches_cluster}
use azure_admission_controll.Vmcapabilities.{Cache, Skus}
use azure_admission_controll.Vmcapabilities.Caching.{IsFaithful, Answers, Answers-lift, Answers-seq}
use azure_admission_controll.Azuremachinepool.{
  desired_data_disks, check_ssh_key_is_empty, check_data_disks, check_location, create_checks,
  on_create_validate,
}
use azure_admission_controll.Azuremachinepool.Direct.{
  direct_instance_type, direct_networking, direct_storage, instance_type-Answers,
  networking-Answers, storage-Answers,
}
use azure_admission_controll.Azuremachinepool.Requirements.{
  check_data_disks_iff, IsLargeEnough, instance_type_iff, HasNetworking, networking_iff, HasStorage,
  storage_iff,
}

module _ (p : Platform) (azure : String → Result Cache) (mp : AzureMachinePool) where
  -- What an admitted AzureMachinePool satisfies.
  pub record IsCreatable : Type 0 where
    pub vendor : p.vendor.validate_create_azure_machine_pool mp ≡ accept
    pub organization : validate_organization_label_matches_cluster p mp.meta ≡ accept
    pub size : IsLargeEnough azure mp
    pub networking : HasNetworking azure mp
    pub storage : HasStorage p azure mp
    pub no_ssh_key : mp.ssh_public_key ≡ ""
    pub disks : mp.data_disks ≡ desired_data_disks
    pub location : mp.location ≡ p.location

  direct_create : Check
  direct_create = do
    p.vendor.validate_create_azure_machine_pool mp
    validate_organization_label_matches_cluster p mp.meta
    direct_instance_type azure mp
    direct_networking azure mp
    direct_storage p azure mp
    check_ssh_key_is_empty mp
    check_data_disks mp
    check_location mp p.location

  create-Answers : Answers azure (create_checks p azure mp) direct_create
  unfolding create_checks direct_create
  create-Answers =
      Answers-seq azure (Answers-lift azure (p.vendor.validate_create_azure_machine_pool mp)) (
        Answers-seq azure
          (Answers-lift azure (validate_organization_label_matches_cluster p mp.meta))
          (Answers-seq azure (instance_type-Answers azure mp) (
            Answers-seq azure (networking-Answers azure mp) (
              Answers-seq azure (storage-Answers p azure mp) (
                Answers-seq azure (Answers-lift azure (check_ssh_key_is_empty mp)) (
                  Answers-seq azure (Answers-lift azure (check_data_disks mp))
                    (Answers-lift azure (check_location mp p.location))))))))

  direct_create_iff : (direct_create ≡ accept) ↔ IsCreatable
  unfolding direct_create check_ssh_key_is_empty check_location
  direct_create_iff = (
    λ h. record {
      vendor = ground arith;
      organization = ground arith;
      size = (instance_type_iff azure mp).0 (ground arith);
      networking = (networking_iff azure mp).0 (ground arith);
      storage = (storage_iff p azure mp).0 (ground arith);
      no_ssh_key = ground (arith, eq_iff mp.ssh_public_key "");
      disks = (check_data_disks_iff mp).0 (ground arith);
      location = ground (arith, eq_iff mp.location p.location);
    },
    λ c. ground (
      arith,
      c.vendor,
      c.organization,
      (instance_type_iff azure mp).1 c.size,
      (networking_iff azure mp).1 c.networking,
      (storage_iff p azure mp).1 c.storage,
      c.no_ssh_key,
      (check_data_disks_iff mp).1 c.disks,
      c.location,
      eq_iff mp.ssh_public_key "",
      eq_iff mp.location p.location,
    ),
  )

  -- Whatever the cache holds, if it is faithful to Azure, the webhook admits the creation of an
  -- AzureMachinePool exactly when: Cluster API admits it, its organization is its cluster's, its VM
  -- size has at least 16 GB of memory and 4 CPUs, the VM size supports the accelerated networking and
  -- the premium storage that it asks for, it has no SSH key, its data disks are the two that the
  -- operator expects, and its location is the installation's.
  pub on_create_validate_iff :
      (skus : Skus)
      → IsFaithful azure skus
      → ((on_create_validate p azure (azure_machine_pool mp) skus).0 ≡ accept) ↔ IsCreatable
  unfolding on_create_validate
  on_create_validate_iff skus f =
      let same = create-Answers.result skus f in
      (λ h. direct_create_iff.0 (sym same ∙ h), λ c. same ∙ direct_create_iff.1 c)
