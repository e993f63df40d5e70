-- ===== src/System/Upstreams/Arrived.antt =====
-- The endpoints of a cluster reach the storage: an EDS response to translate of
-- pkg/amesh/provisioner/xds.go, with its events stored by pkg/amesh/agent.go.
use amesh.Prelude.{String, ◌≡◌, ◌≢◌, sym, ◌∙◌, List, [], some, lookup}
use amesh.Apisix.Route.{Route}
use amesh.Apisix.Upstream.{Upstream}
use amesh.Apisix.Compare.Latest.{latest}
use amesh.Manifest.{upstream_key}
use amesh.Agent.{Storage, Contract, Agent, store_events}
use amesh.Agent.Loop.{data_storage-store_events}
use amesh.Xds.Envoy.{Any, ClusterLoadAssignment}
use amesh.Xds.Externals.{Externals}
use amesh.Xds.Cluster.{locality_loop}
use amesh.Xds.Provisioner.{XdsProvisioner}
use amesh.Xds.Eds.{translate_eds}
use amesh.Xds.Eds.Arrived.{decoded, loop_arrived}
use amesh.System.Upstreams.Carried.{IsServing, eds-Carries}

module _ (ext : Externals) {S : Type 0} (storage : Storage S) (contract : Contract S storage)
    (encode_route : Route → String) (encode_upstream : Upstream → String)
    (route_ok : (r : Route) → ext.marshal.route r ≡ some (encode_route r))
    (upstream_ok : (u : Upstream) → ext.marshal.upstream u ≡ some (encode_upstream u))
    (Known : String → Type 0)
    (injective : (a b : String) → Known a → Known b → ext.gen_id a ≡ ext.gen_id b → a ≡ b)
    (copied : (u v : Upstream) → ext.json_copy u ≡ some v → (v.name ≡ u.name) × (v.id ≡ u.id))
    (copies : (u : Upstream) → (v : Upstream) × (ext.json_copy u ≡ some v)) where
  open contract use {read}

  -- If no two of the known names, which those of the provisioner's upstreams are, have the same id,
  -- every upstream can be copied through JSON and keeps
  -- its name and id, all resources can be encoded and the storage serves the upstreams of the
  -- provisioner, then the last assignment in an EDS response to a known cluster, if it has a usable
  -- endpoint, arrives: the cluster's upstream has the nodes of the assignment, and under the key of
  -- the cluster's id this upstream is read once the events are stored.
  pub translate_eds-arrived :
      (timestamp name : String) (resources : List Any) (p : XdsProvisioner) (g : Agent S)
      (before : Upstream) (cla : ClusterLoadAssignment)
      → IsServing ext storage contract encode_route encode_upstream route_ok upstream_ok Known
          injective copied p g.data_storage
      → lookup name p.upstreams ≡ some before
      → latest (λ cla. cla.cluster_name) name (decoded ext resources) ≡ some cla
      → locality_loop cla.endpoints ≢ []
      → let t = translate_eds ext resources p in
        (u : Upstream) × (lookup name t.state.upstreams ≡ some u)
        × (u.nodes ≡ locality_loop cla.endpoints)
        × (read
              (upstream_key (ext.gen_id name))
              (store_events storage ext.marshal timestamp t.events g).data_storage
            ≡ some (encode_upstream u))
  translate_eds-arrived timestamp name resources p g before cla h known last usable =
      let t = translate_eds ext resources p in
      let after =
        eds-Carries ext storage contract encode_route encode_upstream route_ok upstream_ok Known
          injective copied resources p g.data_storage h in
      let (u, found, nodes) = arrived in
      (
        u,
        found,
        nodes,
        rw (data_storage-store_events, ← (after.named name u found).1)
            (after.stored name u found (λ e. usable (sym nodes ∙ e))),
      )
    where
      arrived :
          (u : Upstream) × (lookup name (translate_eds ext resources p).state.upstreams ≡ some u)
          × (u.nodes ≡ locality_loop cla.endpoints)
      arrived =
          unfold translate_eds in
          loop_arrived ext (λ u v e. (copied u v e).0) copies p.src name cla resources
            (record { required = []; names = []; upstreams = p.upstreams; manifest = [] })
            (λ k u e. (h.named k u e).0) (before, known) last usable
