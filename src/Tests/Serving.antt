-- ===== src/Tests/Serving.antt =====
-- Tests of the upstreams that are served, and of those that are forgotten.
use mathlib.Core.List.{Memᴰ}
use amesh.Xds.Envoy.{Cluster, eds, round_robin}
use amesh.Prelude.{false, none, eq_iff, String, ◌≡◌, refl, List, [], ◌∷◌, some, Map, lookup, arith}
use amesh.Apisix.Upstream.{Upstream}
use amesh.Prelude.{map, pos}
use amesh.Apisix.Compare.Latest.{latest}
use amesh.Agent.{store_events}
use amesh.Xds.Cluster.{locality_loop}
use amesh.Xds.Cluster.Nodes.{to_locality}
use amesh.Xds.Eds.Arrived.{decoded}
use amesh.System.Upstreams.Bootstrapped.{endpoints_stored}
use amesh.Tests.Upstreams.{local}
use amesh.Xds.Envoy.{ClusterLoadAssignment, load_assignment_url, Any}
use amesh.Xds.Provisioner.{XdsProvisioner, is_eds}
use amesh.Xds.Cds.{translate_cds}
use amesh.Xds.Cds.Forgotten.{translate_cds_forgotten}
use amesh.Xds.Eds.{translate_eds}
use amesh.Xds.Translate.{Round, translate, translate_round}
use amesh.System.{store_batches, System, respond, here, next}
use amesh.System.Upstreams.{Serves, Reach-Serves}
use amesh.System.Upstreams.Carried.{IsServing}
use amesh.Tests.Resources.{
  map_storage, map_contract, route_name, upstream_name, no_data, plain_upstream, node,
}
use amesh.Tests.Plugins.{parse_any}
use amesh.Tests.Running.{IsOk, value_of, value_of_lem, new_provisioner}
use amesh.Tests.Exchanging.{mesh, with_one}

abbrev shop : Upstream
shop = record (plain_upstream "shop" []) { name = "shop" }

abbrev shop_known : System (Map String)
shop_known = record {
  provisioner = record new_provisioner { upstreams = ("shop", shop) ∷ [] };
  ver_info = "";
  agent = no_data;
}

assigned_run : IsOk (translate_round mesh (with_one load_assignment_url) "" shop_known.provisioner)
unfolding translate_round translate translate_eds
assigned_run = tt

abbrev assigned_round : Round mesh
assigned_round =
    value_of (translate_round mesh (with_one load_assignment_url) "" shop_known.provisioner)
      assigned_run

abbrev shop_served : System (Map String)
shop_served = record {
  provisioner = assigned_round.state;
  ver_info = assigned_round.ver_info;
  agent = store_batches mesh parse_any map_storage "1" assigned_round.events no_data;
}

copy_kept : (u v : Upstream) → mesh.json_copy u ≡ some v → (v.name ≡ u.name) × (v.id ≡ u.id)
copy_kept u v e = ground arith

only_one :
    (k n : String) (ups u : Upstream) → lookup n ((k, ups) ∷ []) ≡ some u → (u ≡ ups) × (k ≡ n)
unfolding lookup
only_one k n ups u e = ground (arith, eq_iff k n)

-- The mesh has one cluster.
abbrev IsOnlyName : String → Type 0
IsOnlyName n = n ≡ "shop"

shop_known-IsServing :
    IsServing mesh map_storage map_contract route_name upstream_name
      (λ r. refl)
      (λ u. refl)
      IsOnlyName
      (λ a b s t e. e)
      copy_kept
      shop_known.provisioner
      no_data.data_storage
unfolding lookup
shop_known-IsServing = record {
  distinct = (refl, tt);
  named =
      λ n u e. let (same, key) = only_one "shop" n shop u e in rw (same, ← key) (refl, refl, refl);
  stored = λ n u e has. absurd (has (rw (only_one "shop" n shop u e).0 refl));
}

Reach-Serves_example :
    Serves mesh parse_any map_storage map_contract route_name upstream_name
      (λ r. refl)
      (λ u. refl)
      IsOnlyName
      (λ a b s t e. e)
      copy_kept
      shop_served.provisioner
      shop_served.agent
Reach-Serves_example =
    Reach-Serves mesh parse_any map_storage map_contract route_name upstream_name (λ r. refl)
      (λ u. refl) IsOnlyName (λ a b s t e. e) copy_kept {x = shop_known} {y = shop_served}
      (next here
        (respond "1" (with_one load_assignment_url) assigned_round (value_of_lem _ assigned_run)))
      (tt, λ e. absurd (cc e)) shop_known-IsServing

abbrev clusters : List Any
clusters = record { type_url = "cluster"; value = "shop" } ∷ []

-- the shop with a node, as an EDS response leaves it
abbrev with_nodes_shop : XdsProvisioner
with_nodes_shop = record new_provisioner {
  upstreams = ("shop", plain_upstream "shop" (node "10.0.0.1" (pos 80) ∷ [])) ∷ [];
}

translate_cds_forgotten_example :
    let first = translate_cds mesh clusters with_nodes_shop in
    let second = translate_cds mesh [] first.state in
    (second.events ≡ []) × ((k : String) → Unit {0} → lookup k second.state.upstreams ≡ none)
unfolding is_eds
translate_cds_forgotten_example =
    translate_cds_forgotten mesh with_nodes_shop clusters [] ((λ c e. ground arith), tt) tt

abbrev shop_assignment : ClusterLoadAssignment
shop_assignment = record { cluster_name = "shop"; endpoints = map to_locality (local ∷ []) }

abbrev shop_cluster : Cluster
shop_cluster = record {
  name = "shop";
  lb_policy = round_robin;
  connect_timeout = none;
  has_cluster_type = false;
  discovery_type = eds;
  load_assignment = none;
}

abbrev one_resource : Any
one_resource = record { type_url = "any"; value = "one" }

none_known-IsServing :
    IsServing mesh map_storage map_contract route_name upstream_name
      (λ r. refl)
      (λ u. refl)
      IsOnlyName
      (λ a b s t e. e)
      copy_kept
      new_provisioner
      no_data.data_storage
unfolding lookup
none_known-IsServing = record {
  distinct = tt;
  named = λ n u e. absurd (cc e);
  stored = λ n u e has. absurd (cc e);
}

endpoints_stored_example :
    let first = translate_cds mesh (one_resource ∷ []) new_provisioner in
    let second = translate_eds mesh (one_resource ∷ []) first.state in
    (u : Upstream) × (u.nodes ≡ locality_loop shop_assignment.endpoints)
    × (lookup "/upstreams/shop"
          (store_events map_storage mesh.marshal "1" second.events
            (store_events map_storage mesh.marshal "1" first.events no_data)).data_storage
        ≡ some (upstream_name u))
unfolding latest decoded locality_loop is_eds
endpoints_stored_example =
    endpoints_stored mesh map_storage map_contract route_name upstream_name (λ r. refl) (λ u. refl)
      IsOnlyName (λ a b s t e. e) copy_kept (λ u. (u, refl)) "1" (one_resource ∷ [])
      (one_resource ∷ []) new_provisioner no_data one_resource shop_cluster shop_assignment
      none_known-IsServing ((λ c e. ground arith), tt) (Memᴰ.head refl) refl refl refl
      (λ e. ground arith)
