-- ===== src/Cluster/Patching.antt =====
-- What the patches of the mutating webhook make of the fields that it sets.
use azure_admission_controll.Patch.Applying.{
  is_apart, is_apart-path, label_path-elsewhere, apply_maybe,
}
use azure_admission_controll.Patch.Labelling.{SetsLabel, set, unset}
use azure_admission_controll.Prelude.{
  Bool, true, ◌&&◌, String, Option, some, ◌==◌, ◌≡◌, refl, arith, if◌then◌else◌,
}
use azure_admission_controll.Objects.{Cluster}
use azure_admission_controll.Patch.{Value, PatchOperation, text, number, network}

abbrev put_network : Value → Cluster → Cluster
put_network (network n) c = record c { cluster_network = some n }
put_network _ c = c

abbrev put_host : Value → Cluster → Cluster
put_host (text s) c = record c {
  control_plane_endpoint = record { host = s; port = c.control_plane_endpoint.port };
}
put_host _ c = c

abbrev put_port : Value → Cluster → Cluster
put_port (number n) c = record c {
  control_plane_endpoint = record { host = c.control_plane_endpoint.host; port = n };
}
put_port _ c = c

-- What a patch that is at one of the three paths, or neither above nor below any of them, makes of these
-- fields of a Cluster.
abbrev pub apply : PatchOperation → Cluster → Cluster
apply a c =
    if a.path == "/spec/clusterNetwork"
    then put_network a.value c
    else if a.path == "/spec/controlPlaneEndpoint/host"
    then put_host a.value c
    else if a.path == "/spec/controlPlaneEndpoint/port"
    then put_port a.value c
    else c

-- A patch leaves the network and the endpoint alone.
abbrev pub is_elsewhere : PatchOperation → Bool
is_elsewhere a =
    is_apart "/spec/clusterNetwork" a
    && is_apart "/spec/controlPlaneEndpoint/host" a
    && is_apart "/spec/controlPlaneEndpoint/port" a

pub elsewhere-leaves : (a : PatchOperation) → is_elsewhere a ≡ true → (c : Cluster) → apply a c ≡ c
elsewhere-leaves a h c = ground (
  arith,
  is_apart-path "/spec/clusterNetwork" a refl,
  is_apart-path "/spec/controlPlaneEndpoint/host" a refl,
  is_apart-path "/spec/controlPlaneEndpoint/port" a refl,
)

pub label-leaves :
    (label : String) {m : Option PatchOperation}
    → SetsLabel label m
    → (c : Cluster) → apply_maybe apply m c ≡ c
label-leaves label unset c = refl
label-leaves label (set value) c = ground (
  arith,
  label_path-elsewhere label "/spec/clusterNetwork" refl,
  label_path-elsewhere label "/spec/controlPlaneEndpoint/host" refl,
  label_path-elsewhere label "/spec/controlPlaneEndpoint/port" refl,
)
