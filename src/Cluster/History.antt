-- ===== src/Cluster/History.antt =====
-- What holds of a Cluster's conditions after any history of admitted updates.
use azure_admission_controll.Prelude.{none, true, ◌≡◌, ◌≢◌, inl, inr}
use azure_admission_controll.Result.{accept, >>-eq-accept}
use azure_admission_controll.Objects.{Cluster, cluster, is_zero_time}
use azure_admission_controll.Platform.{Platform}
use azure_admission_controll.Scheduledupgrades.{Clock}
use azure_admission_controll.Conditions.{
  validate_creating_condition, validate_upgrading_condition, validate_cluster_conditions,
}
use azure_admission_controll.Conditions.Transitions.{
  DistinctStatuses, HasStatus, creating, upgrading, Step-kept, CreatingStep-False,
  validate_creating_condition-CreatingStep, validate_upgrading_condition-Step,
}
use azure_admission_controll.Cluster.{on_update_validate}
use azure_admission_controll.Cluster.Update.{on_update_validate-cluster}

module _ (p : Platform) (clock : Clock) where
  -- A sequence of updates of a Cluster, each admitted by the webhook, up to its deletion: once it is
  -- being deleted, the webhook looks at nothing.
  pub data History (c : Cluster) : Cluster → Type 0 where
    start : History c c
    update :
        {d e : Cluster}
        → History c d
        → is_zero_time e.meta.deletion_timestamp ≡ true
        → on_update_validate p clock (cluster d) (cluster e) ≡ accept
        → History c e

  conditions_checked :
      (d e : Cluster)
      → is_zero_time e.meta.deletion_timestamp ≡ true
      → on_update_validate p clock (cluster d) (cluster e) ≡ accept
      → (validate_creating_condition p d e ≡ accept) × (validate_upgrading_condition p d e ≡ accept)
  unfolding validate_cluster_conditions
  conditions_checked d e live admitted =
      elim ((on_update_validate-cluster p clock d e).0 admitted) [
        | inl deleted ↦ absurd cc
        | inr i ↦
            >>-eq-accept (validate_creating_condition p d e) (validate_upgrading_condition p d e)
              i.conditions
      ]

  module _ (distinct : DistinctStatuses p) where
    -- Once the condition Creating of a Cluster is False, it is False after any sequence of updates of
    -- Clusters that are not being deleted, each admitted by the webhook: it is never removed and never
    -- True again. What Unknown is called differs from what True and False are called.
    pub History-creation_completed :
        {c d : Cluster}
        → HasStatus (creating p c) p.names.condition_false
        → History c d
        → HasStatus (creating p d) p.names.condition_false
    History-creation_completed h start = h
    History-creation_completed h (update {d} {e} before live admitted) =
        CreatingStep-False p distinct _ _ (History-creation_completed h before) (
          (validate_creating_condition-CreatingStep p distinct d e).0
            (conditions_checked d e live admitted).0)

    -- A condition Upgrading that is there is never removed by such a sequence.
    History-upgrading_kept :
        {c d : Cluster} → upgrading p c ≢ none → History c d → upgrading p d ≢ none
    History-upgrading_kept h start = h
    History-upgrading_kept h (update {d} {e} before live admitted) =
        Step-kept p distinct _ _ (History-upgrading_kept h before) (
          (validate_upgrading_condition-Step p distinct d e).0
            (conditions_checked d e live admitted).1)
