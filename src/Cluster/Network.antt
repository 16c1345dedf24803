-- ===== src/Cluster/Network.antt =====
-- The cluster network and the control plane endpoint: what is accepted, and when the code panics.
use azure_admission_controll.Prelude.{
  pos, ap, sym, ◌∙◌, String, List, [], ◌∷◌, Option, none, some, true, ◌≡◌, refl, ◌↔◌, ◌⊎◌, inl, inr,
  ℤ, eqb_ℤ_iff, arith, eq_iff, eqb_texts_iff,
}
use azure_admission_controll.Result.{panic, accept}
use azure_admission_controll.Objects.{ApiEndpoint, NetworkRanges, ClusterNetwork, Cluster}
use azure_admission_controll.Key.{
  control_plane_endpoint_port, service_domain, cluster_network_service_cidr,
}
use azure_admission_controll.Cluster.{
  eqb_blocks, eqb_endpoint, check_services, check_network, validate_cluster_network,
  services_unchanged, network_unchanged, validate_cluster_network_unchanged,
}

eqb_blocks_iff : (l m : Option (List String)) → (eqb_blocks l m ≡ true) ↔ (l ≡ m)
eqb_blocks_iff none none = ground arith
eqb_blocks_iff none (some m) = ground arith
eqb_blocks_iff (some l) none = ground arith
eqb_blocks_iff (some l) (some m) = ground (arith, eqb_texts_iff l m)

pub eqb_endpoint_iff : (a b : ApiEndpoint) → (eqb_endpoint a b ≡ true) ↔ (a ≡ b)
eqb_endpoint_iff a b = ground (arith, eq_iff a.host b.host, eqb_ℤ_iff a.port b.port)

-- The network that the operator expects: one port, one domain, one range of services.
pub record IsExpected (network : ClusterNetwork) : Type 0 where
  pub port : network.api_server_port ≡ some (pos 443)
  pub domain : network.service_domain ≡ "cluster.local"
  pub ranges : NetworkRanges
  pub services : network.services ≡ some ranges
  pub blocks : ranges.cidr_blocks ≡ some ("172.31.0.0/16" ∷ [])

abbrev pub HasExpectedNetwork : Cluster → Type 0
HasExpectedNetwork c = (n : ClusterNetwork) × (c.cluster_network ≡ some n) × IsExpected n

check_services_iff :
    (s : Option NetworkRanges)
    → (check_services s ≡ accept) ↔ (
        (r : NetworkRanges) × (s ≡ some r)
        × (r.cidr_blocks ≡ some (cluster_network_service_cidr ∷ [])))
check_services_iff none = ground arith
check_services_iff (some r) =
    let same = eqb_blocks_iff r.cidr_blocks (some (cluster_network_service_cidr ∷ [])) in
    (λ h. (r, refl, same.0 (ground arith)), λ (r', e, b). ground (arith, same))

check_network_sound :
    (n : Option ClusterNetwork)
    → check_network n ≡ accept
    → (m : ClusterNetwork) × (n ≡ some m) × IsExpected m
check_network_sound none h = absurd (ground arith)
check_network_sound (some n) h = go n.api_server_port refl h
  where
    go :
        (port : Option ℤ)
        → n.api_server_port ≡ port
        → check_network (some n) ≡ accept
        → (m : ClusterNetwork) × (some n ≡ some m) × IsExpected m
    go none e h = absurd (ground arith)
    go (some port) e h =
        let (r, there, blocks) = (check_services_iff n.services).0 (ground arith) in
        (
          n,
          refl,
          record {
            port = ground (arith, eqb_ℤ_iff port control_plane_endpoint_port);
            domain = ground (arith, eq_iff n.service_domain service_domain);
            ranges = r;
            services = there;
            blocks = blocks;
          },
        )

-- The check of a new Cluster's network accepts exactly the network that the operator expects: port
-- 443, the service domain, and the one range of services.
pub validate_cluster_network_iff :
    (c : Cluster) → (validate_cluster_network c ≡ accept) ↔ HasExpectedNetwork c
unfolding validate_cluster_network
validate_cluster_network_iff c = (
  λ h. check_network_sound c.cluster_network h,
  λ (n, e, i). ground (
    arith,
    e,
    i.port,
    i.domain,
    (check_services_iff n.services).1 (i.ranges, i.services, i.blocks),
    eqb_ℤ_iff control_plane_endpoint_port control_plane_endpoint_port,
    eq_iff n.service_domain service_domain,
  ),
)

services_unchanged_iff : (a b : Option NetworkRanges) → (services_unchanged a b ≡ accept) ↔ (a ≡ b)
services_unchanged_iff none none = ground arith
services_unchanged_iff none (some b) = ground arith
services_unchanged_iff (some a) none = ground arith
services_unchanged_iff (some a) (some b) =
    ground (arith, eqb_blocks_iff a.cidr_blocks b.cidr_blocks)

-- Both Clusters have no network, or both have one with a port, and the two agree in port, service domain
-- and services. The pods are not compared.
pub data NetworkKept : Option ClusterNetwork → Option ClusterNetwork → Type 0 where
  no_network : NetworkKept none none
  same_network :
      (m n : ClusterNetwork) (port : ℤ)
      → m.api_server_port ≡ some port
      → n.api_server_port ≡ some port
      → m.service_domain ≡ n.service_domain
      → m.services ≡ n.services
      → NetworkKept (some m) (some n)

-- Both have a network, and one of them has no port.
abbrev pub LacksPort : Option ClusterNetwork → Option ClusterNetwork → Type 0
LacksPort old new =
    (m : ClusterNetwork) × (n : ClusterNetwork) × (old ≡ some m)
    × (new ≡ some n)
    × ((m.api_server_port ≡ none) ⊎ (n.api_server_port ≡ none))

network_kept_sound :
    (m n : ClusterNetwork) (a b : Option ℤ)
    → m.api_server_port ≡ a
    → n.api_server_port ≡ b
    → network_unchanged (some m) (some n) ≡ accept
    → NetworkKept (some m) (some n)
network_kept_sound m n none b e f h = absurd (ground arith)
network_kept_sound m n (some a) none e f h = absurd (ground arith)
network_kept_sound m n (some a) (some b) e f h =
    let same : a ≡ b = ground (arith, eqb_ℤ_iff a b) in
    same_network m n a e (f ∙ ap some (sym same))
      (ground (arith, eq_iff m.service_domain n.service_domain))
      ((services_unchanged_iff m.services n.services).0 (ground arith))

network_unchanged_iff :
    (a b : Option ClusterNetwork) → (network_unchanged a b ≡ accept) ↔ NetworkKept a b
network_unchanged_iff none none = (λ h. no_network, λ k. refl)
network_unchanged_iff none (some n) = (λ h. absurd (ground arith), λ k. elim k [ ])
network_unchanged_iff (some m) none = (λ h. absurd (ground arith), λ k. elim k [ ])
network_unchanged_iff (some m) (some n) = (
  network_kept_sound m n m.api_server_port n.api_server_port refl refl,
  complete (some m) (some n),
)
  where
    complete : (a b : Option ClusterNetwork) → NetworkKept a b → network_unchanged a b ≡ accept
    complete a b no_network = refl
    complete a b (same_network m n port e f d s) = ground (
      arith,
      eqb_ℤ_iff port port,
      eq_iff m.service_domain n.service_domain,
      services_unchanged_iff m.services n.services,
    )

-- An update keeps the Cluster's network: the check accepts exactly when both have none, or both have a
-- port and agree in port, service domain and services.
pub validate_cluster_network_unchanged_iff :
    (old new : Cluster)
    → (validate_cluster_network_unchanged old new ≡ accept)
      ↔ NetworkKept old.cluster_network new.cluster_network
unfolding validate_cluster_network_unchanged
validate_cluster_network_unchanged_iff old new =
    network_unchanged_iff old.cluster_network new.cluster_network

panics_sound :
    (m n : ClusterNetwork) (a b : Option ℤ)
    → m.api_server_port ≡ a
    → n.api_server_port ≡ b
    → network_unchanged (some m) (some n) ≡ panic
    → (m.api_server_port ≡ none) ⊎ (n.api_server_port ≡ none)
panics_sound m n none b e f h = inl e
panics_sound m n (some a) none e f h = inr f
panics_sound m n (some a) (some b) e f h = absurd (no_panic m.services n.services (ground arith))
  where
    no_panic : (s t : Option NetworkRanges) → ¬ (services_unchanged s t ≡ panic)
    no_panic none none h = cc
    no_panic none (some t) h = cc
    no_panic (some s) none h = cc
    no_panic (some s) (some t) h = ground arith

-- The check that the network is kept panics exactly when both Clusters have a network and one of the
-- two has no port.
pub validate_cluster_network_unchanged-panic :
    (old new : Cluster)
    → (validate_cluster_network_unchanged old new ≡ panic)
      ↔ LacksPort old.cluster_network new.cluster_network
unfolding validate_cluster_network_unchanged
validate_cluster_network_unchanged-panic old new = iff old.cluster_network new.cluster_network
  where
    complete :
        (m n : ClusterNetwork)
        → (m.api_server_port ≡ none) ⊎ (n.api_server_port ≡ none)
        → network_unchanged (some m) (some n) ≡ panic
    complete m n (inl e) = ground arith
    complete m n (inr e) = by_port m.api_server_port refl
      where
        by_port :
            (a : Option ℤ) → m.api_server_port ≡ a → network_unchanged (some m) (some n) ≡ panic
        by_port none f = ground arith
        by_port (some a) f = ground arith

    iff : (a b : Option ClusterNetwork) → (network_unchanged a b ≡ panic) ↔ LacksPort a b
    iff none none = (λ h. cc, λ (m, n, e, f, l). cc)
    iff none (some n) = (λ h. cc, λ (m, n, e, f, l). cc)
    iff (some m) none = (λ h. cc, λ (m, n, e, f, l). cc)
    iff (some m) (some n) = (
      λ h. (m, n, refl, refl, panics_sound m n m.api_server_port n.api_server_port refl refl h),
      λ (m', n', e, f, l). complete m n (ground arith),
    )
