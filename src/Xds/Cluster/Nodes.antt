-- ===== src/Xds/Cluster/Nodes.antt =====
-- TranslateClusterLoadAssignment of pkg/amesh/provisioner/endpoint_translator.go on assignments
-- whose endpoints are TCP sockets with a port number.
use amesh.Prelude.{
  ℕ, ◌<◌, pos, int32_lem, String, true, ◌≡◌, refl, ap, List, [], ◌∷◌, ◌++◌, map, ◌∙◌, Option, none,
  some, All, arith,
}
use mathlib.Core.Path.{ap₂}
use amesh.Apisix.Upstream.{Node}
use amesh.Xds.Envoy.{LbEndpoint, LocalityLbEndpoints, endpoint, socket_address, port_value}
use amesh.Xds.Cluster.{
  assigned, endpoint_node, endpoint_loop, locality_weight, locality_loop,
  translate_cluster_load_assignment,
}

-- A socket that serves, with a weight of its own or none.
pub record Spot : Type 0 where
  pub host : String
  pub port : ℕ
  pub weight : Option ℕ

pub record Zone : Type 0 where
  pub weight : Option ℕ
  pub spots : List Spot

-- The number fits in 31 bits.
abbrev pub IsSmall : ℕ → Type 0
IsSmall n = n < 2147483648

abbrev pub IsSmallOption : Option ℕ → Type 0
IsSmallOption none = Unit
IsSmallOption (some n) = IsSmall n

abbrev pub IsSmallSpot : Spot → Type 0
IsSmallSpot s = IsSmall s.port × IsSmallOption s.weight

abbrev pub IsSmallZone : Zone → Type 0
IsSmallZone z = IsSmallOption z.weight × All IsSmallSpot z.spots

-- the message that holds the socket
abbrev pub to_endpoint : Spot → LbEndpoint
to_endpoint s = record {
  load_balancing_weight = s.weight;
  host_identifier =
      endpoint
        (socket_address (record { is_tcp = true; address = s.host; port = port_value s.port }));
}

abbrev pub to_locality : Zone → LocalityLbEndpoints
to_locality z = record { load_balancing_weight = z.weight; lb_endpoints = map to_endpoint z.spots }

-- a weight, or another where there is none
abbrev pub weight_or : ℕ → Option ℕ → ℕ
weight_or w none = w
weight_or w (some v) = v

abbrev pub spot_node : ℕ → Spot → Node
spot_node w s = record {
  host = s.host;
  port = pos s.port;
  weight = pos (weight_or w s.weight);
  metadata = none;
}

abbrev pub zone_nodes : List Zone → List Node
zone_nodes [] = []
zone_nodes (z ∷ zs) = map (spot_node (weight_or 100 z.weight)) z.spots ++ zone_nodes zs

endpoint_node-weight :
    (w p : ℕ) (host : String) (v : Option ℕ)
    → IsSmall p
    → IsSmallOption v
    → endpoint_node (pos w) (to_endpoint (record { host = host; port = p; weight = v }))
      ≡ some (spot_node w (record { host = host; port = p; weight = v }))
unfolding endpoint_node
endpoint_node-weight w p host none small own = rw (int32_lem p small) refl
endpoint_node-weight w p host (some v) small own = rw (int32_lem p small, int32_lem v own) refl

endpoint_node-spot :
    (w : ℕ) (s : Spot)
    → IsSmallSpot s
    → endpoint_node (pos w) (to_endpoint s) ≡ some (spot_node w s)
endpoint_node-spot w s small = endpoint_node-weight w s.port s.host s.weight small.0 small.1

endpoint_loop-spots :
    (w : ℕ) (ss : List Spot)
    → All IsSmallSpot ss
    → endpoint_loop (pos w) (map to_endpoint ss) ≡ map (spot_node w) ss
unfolding endpoint_loop
endpoint_loop-spots w [] small = refl
endpoint_loop-spots w (s ∷ ss) small =
    ground (arith, endpoint_node-spot w s small.0, endpoint_loop-spots w ss small.1)

locality_weight-zone :
    (v : Option ℕ) (eps : List LbEndpoint)
    → IsSmallOption v
    → locality_weight (record { load_balancing_weight = v; lb_endpoints = eps })
      ≡ pos (weight_or 100 v)
locality_weight-zone none eps small = refl
locality_weight-zone (some v) eps small = int32_lem v small

locality_loop-zones :
    (zs : List Zone) → All IsSmallZone zs → locality_loop (map to_locality zs) ≡ zone_nodes zs
unfolding locality_loop
locality_loop-zones [] small = refl
locality_loop-zones (z ∷ zs) small =
    ap₂ ◌++◌
      (ap (λ w. endpoint_loop w (map to_endpoint z.spots))
          (locality_weight-zone z.weight (map to_endpoint z.spots) small.0.0)
        ∙ endpoint_loop-spots (weight_or 100 z.weight) z.spots small.0.1)
      (locality_loop-zones zs small.1)

-- An assignment with at least one locality, whose endpoints are all TCP sockets and whose ports and
-- weights fit in 31 bits, yields one node for each endpoint in its order: with the address, the port
-- and the weight of the endpoint, or else that of the locality, or else 100.
pub translate_cluster_load_assignment-zones :
    (name : String) (z : Zone) (zs : List Zone)
    → All IsSmallZone (z ∷ zs)
    → translate_cluster_load_assignment
        (some (record { cluster_name = name; endpoints = map to_locality (z ∷ zs) }))
      ≡ assigned (zone_nodes (z ∷ zs))
unfolding translate_cluster_load_assignment
translate_cluster_load_assignment-zones name z zs small =
    ground (arith, locality_loop-zones (z ∷ zs) small)
