-- ===== src/System/Upstreams.antt =====
-- The upstreams that the agent knows with nodes are those that APISIX reads, whatever it receives.
pub mod Stored
pub mod Carried
pub mod Arrived
pub mod Bootstrapped
use amesh.Prelude.{
  String, ◌≡◌, ◌≢◌, refl, ap, ◌∙◌, List, [], ◌++◌, Option, some, lookup, Result, ok, err, panic,
  ok_injective, bind-ok, arith, inl, inr,
}
use amesh.Apisix.Route.{Route}
use amesh.Apisix.Upstream.{Upstream}
use amesh.Apisix.Plugin.{Config}
use amesh.Apisix.Compare.Latest.{latest, latest-key}
use amesh.Manifest.{Event, empty_manifest, upstream_key, generate_incremental_events}
use amesh.Agent.{Storage, Contract, Agent, store_loop, store_events}
use amesh.Agent.Sync.{read-after}
use amesh.Agent.Loop.{data_storage-store_events}
use amesh.Xds.Envoy.{
  TypeUrl, route_url, cluster_url, load_assignment_url, listener_url, secret_url, other_url, Any,
  DiscoveryResponse,
}
use amesh.Xds.Externals.{Externals}
use amesh.Xds.Named.{IsDistinct, IsNamed, lookup-latest}
use amesh.Xds.Provisioner.{XdsProvisioner, Translated}
use amesh.Xds.Rds.{rds_loop, static_routes, translate_rds}
use amesh.Xds.Cds.{with_nodes, cluster_loop, translate_cds}
use amesh.Xds.Cds.Reported.{AreListed, IsReported, loop_reported, nothing_reported, has_nodes-ne}
use amesh.Xds.Eds.{assignment_loop, translate_eds}
use amesh.Xds.Eds.Refreshed.{IsRefreshed, loop-IsRefreshed, nothing-IsRefreshed}
use amesh.Xds.Lds.{listener_loop, translate_lds, secret_loop, translate_sds}
use amesh.Xds.Translate.{
  translate, dispatch, Round, answer, translate_round, patch_routes, update_routes_plugin,
}
use amesh.System.{System, Step, respond, receive, patch, Reach, here, next, store_batches}
use Carried.{IsServing, Carries, routes-Carries, dispatch-Carries}

module _ (ext : Externals) (unmarshal : String → Option Config) {S : Type 0} (storage : Storage S)
    (Known : String → Type 0) where
  -- Every cluster that a CDS response of the step names has a known name.
  abbrev pub IsListed : {x y : System S} → Step ext unmarshal storage x y → Type 0
  IsListed (respond timestamp resp r e) =
      resp.type_url ≡ cluster_url → AreListed ext Known resp.resources
  IsListed (receive resp a e) = Unit
  IsListed (patch timestamp p es e) = Unit

  abbrev pub AllListed : {x y : System S} → Reach ext unmarshal storage x y → Type 0
  AllListed here = Unit
  AllListed (next r s) = AllListed r × IsListed s

module _ (ext : Externals) (unmarshal : String → Option Config) {S : Type 0} (storage : Storage S)
    (contract : Contract S storage) (encode_route : Route → String)
    (encode_upstream : Upstream → String)
    (route_ok : (r : Route) → ext.marshal.route r ≡ some (encode_route r))
    (upstream_ok : (u : Upstream) → ext.marshal.upstream u ≡ some (encode_upstream u))
    (Known : String → Type 0)
    (injective : (a b : String) → Known a → Known b → ext.gen_id a ≡ ext.gen_id b → a ≡ b)
    (copied : (u v : Upstream) → ext.json_copy u ≡ some v → (v.name ≡ u.name) × (v.id ≡ u.id)) where
  -- The storage of the agent serves the upstreams of the provisioner.
  abbrev pub Serves : XdsProvisioner → Agent S → Type 0
  Serves p g =
      IsServing ext storage contract encode_route encode_upstream route_ok upstream_ok Known
        injective copied p g.data_storage

  abbrev CarriesHere : XdsProvisioner → XdsProvisioner → List Event → Type 0
  CarriesHere =
      Carries ext storage contract encode_route encode_upstream route_ok upstream_ok Known injective
        copied

  store_carries :
      (timestamp : String) (p q : XdsProvisioner) (es : List Event) (g : Agent S)
      → CarriesHere p q es
      → Serves p g
      → Serves q (store_events storage ext.marshal timestamp es g)
  store_carries timestamp p q es g carries h =
      rw data_storage-store_events (carries g.data_storage h)

  answer_serving :
      (resp : DiscoveryResponse) (ver_info timestamp : String) (p : XdsProvisioner) (r : Round ext)
      (g : Agent S) (m : Result Translated)
      → ((t : Translated) → m ≡ ok t → CarriesHere p t.state t.events)
      → answer ext resp ver_info p m ≡ ok r
      → Serves p g
      → Serves r.state (store_batches ext unmarshal storage timestamp r.events g)
  unfolding answer store_batches
  answer_serving resp ver_info timestamp p r g (ok t) carries e h =
      rw (← ok_injective e) (store_carries timestamp p t.state t.events g (carries t refl) h)
  answer_serving resp ver_info timestamp p r g (err message) carries e h = rw (← ok_injective e) h
  answer_serving resp ver_info timestamp p r g panic carries e h = absurd (cc e)

  Step-Serves :
      {x y : System S} (step : Step ext unmarshal storage x y)
      → IsListed ext unmarshal storage Known step
      → Serves x.provisioner x.agent
      → Serves y.provisioner y.agent
  unfolding translate_round translate update_routes_plugin
  Step-Serves {x} (respond timestamp resp r e) listed h =
      answer_serving resp x.ver_info timestamp x.provisioner r x.agent
        (dispatch ext resp.type_url resp x.provisioner)
        (λ t.
          dispatch-Carries ext storage contract encode_route encode_upstream route_ok upstream_ok
            Known injective copied resp.type_url resp x.provisioner t listed)
        e h
  Step-Serves (receive resp a e) listed h = record {
    distinct = h.distinct;
    named = h.named;
    stored = h.stored;
  }
  Step-Serves {x} (patch timestamp p es e) listed h =
      let q = x.provisioner in
      let (new_routes, e1, e2) = bind-ok (patch_routes ext q.amesh q.routes) _ e in
      let same = ok_injective e2 in
      rw (← ap (λ r. r.0) same, ← ap (λ r. r.1) same)
        (store_carries timestamp q (record q { routes = new_routes }) _ x.agent
          (routes-Carries ext storage contract encode_route encode_upstream route_ok upstream_ok
            Known injective copied q (record q { routes = new_routes }) q.routes new_routes refl)
          h)

  -- Take a set of known names of which no two have the same id, and suppose that copying an upstream
  -- through JSON keeps its name and id, that all resources can be encoded and that each batch of
  -- events is stored before the next one is made. If the provisioner's upstreams are known at first,
  -- and every cluster that a CDS response names is known, then whatever else the agent receives,
  -- this stays true: each upstream stands once, under its known name and with the id of the name,
  -- and every upstream that has nodes is what is read under its key, with these nodes.
  pub Reach-Serves :
      {x y : System S} (run : Reach ext unmarshal storage x y)
      → AllListed ext unmarshal storage Known run
      → Serves x.provisioner x.agent
      → Serves y.provisioner y.agent
  Reach-Serves here listed h = h
  Reach-Serves (next r s) listed h = Step-Serves s listed.1 (Reach-Serves r listed.0 h)
