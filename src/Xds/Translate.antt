-- ===== src/Xds/Translate.antt =====
-- translate, the body of translateLoop and UpdateRoutesPlugin of pkg/amesh/provisioner/xds.go.
pub mod Drops
use amesh.Prelude.{String, List, [], ◌∷◌, Option, none, some, Result, ok, err, panic, ◌>>=◌}
use amesh.Apisix.Route.{Route, copy}
use amesh.Manifest.{Event, empty_manifest, generate_incremental_events}
use amesh.Amesh.{AmeshProvisioner}
use amesh.Xds.Envoy.{
  TypeUrl, route_url, cluster_url, load_assignment_url, listener_url, secret_url, other_url,
  DiscoveryResponse, DiscoveryRequest,
}
use amesh.Xds.Externals.{Externals}
use amesh.Xds.Patch.{patch_amesh_plugins}
use amesh.Xds.Provisioner.{XdsProvisioner, Translated}
use amesh.Xds.Rds.{translate_rds}
use amesh.Xds.Cds.{translate_cds}
use amesh.Xds.Eds.{translate_eds}
use amesh.Xds.Lds.{translate_lds, translate_sds}

module _ (ext : Externals) where
  abbrev pub dispatch : TypeUrl → DiscoveryResponse → XdsProvisioner → Result Translated
  dispatch route_url resp p = translate_rds ext resp.resources p
  dispatch cluster_url resp p = ok (translate_cds ext resp.resources p)
  dispatch load_assignment_url resp p = ok (translate_eds ext resp.resources p)
  dispatch listener_url resp p = translate_lds ext resp.resources p
  dispatch secret_url resp p = translate_sds ext resp.resources p
  dispatch (other_url url) resp p = err "UnknownResourceTypeUrl"

  unfoldable pub translate : DiscoveryResponse → XdsProvisioner → Result Translated
  translate resp p = dispatch resp.type_url resp p

  -- ackReq.ResourceNames is set only if there are names
  unfoldable pub ack_request : DiscoveryResponse → String → List String → DiscoveryRequest
  ack_request resp ver_info names = record {
    type_url = resp.type_url;
    resource_names = names;
    response_nonce = resp.nonce;
    version_info = ver_info;
    error_detail = none;
  }

  unfoldable pub nack_request : DiscoveryResponse → String → String → DiscoveryRequest
  nack_request resp ver_info message = record {
    type_url = resp.type_url;
    resource_names = [];
    response_nonce = resp.nonce;
    version_info = ver_info;
    error_detail = some message;
  }

  -- What a round of translateLoop leaves: the provisioner, the version of the last response that was
  -- accepted, the acknowledgement and what translate started.
  pub record Round : Type 0 where
    pub state : XdsProvisioner
    pub ver_info : String
    pub ack : DiscoveryRequest
    pub events : List (List Event)
    pub requests : List DiscoveryRequest

  -- what the round makes of the result of translate
  unfoldable pub answer :
      DiscoveryResponse → String → XdsProvisioner → Result Translated → Result Round
  unfolding ack_request nack_request
  answer resp ver_info p panic = panic
  answer resp ver_info p (err message) = ok (record {
    state = p;
    ver_info = ver_info;
    ack = nack_request resp ver_info message;
    events = [];
    requests = [];
  })
  answer resp ver_info p (ok t) = ok (record {
    state = t.state;
    ver_info = resp.version_info;
    ack = ack_request resp resp.version_info t.resource_names;
    events = t.events ∷ [];
    requests = t.requests;
  })

  unfoldable pub translate_round : DiscoveryResponse → String → XdsProvisioner → Result Round
  unfolding translate answer
  translate_round resp ver_info p = answer resp ver_info p (translate resp p)

  -- the loop of updateRoutesPluginManifest over the old routes
  unfoldable pub patch_routes : Option AmeshProvisioner → List Route → Result (List Route)
  patch_routes amesh [] = ok []
  patch_routes amesh (old_route ∷ rest) = do
    route ← patch_amesh_plugins amesh (copy old_route)
    new_routes ← patch_routes amesh rest
    ok (route ∷ new_routes)

  unfoldable pub update_routes_plugin : XdsProvisioner → Result (XdsProvisioner × List Event)
  unfolding patch_routes
  update_routes_plugin p = do
    new_routes ← patch_routes p.amesh p.routes
    ok (
      record p { routes = new_routes },
      generate_incremental_events ext.marshal (some (record empty_manifest { routes = new_routes }))
          (some (record empty_manifest { routes = p.routes })),
    )
