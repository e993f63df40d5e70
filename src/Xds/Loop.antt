-- ===== src/Xds/Loop.antt =====
-- translateLoop of pkg/amesh/provisioner/xds.go on the responses that recvCh delivers, in order, and
-- the acknowledgements that it sends.
pub mod Acks
use amesh.Prelude.{String, List, [], ◌∷◌, Result, ok, err, panic, ◌>>=◌}
use amesh.Xds.Envoy.{DiscoveryResponse, DiscoveryRequest}
use amesh.Xds.Externals.{Externals}
use amesh.Xds.Provisioner.{XdsProvisioner}
use amesh.Xds.Translate.{Round, translate_round}

module _ (ext : Externals) where
  -- the acknowledgements, the version and the provisioner after the responses
  unfoldable pub translate_loop :
      List DiscoveryResponse
      → String
      → XdsProvisioner
      → Result (List DiscoveryRequest × String × XdsProvisioner)
  translate_loop [] ver_info p = ok ([], ver_info, p)
  translate_loop (resp ∷ rest) ver_info p = do
    r ← translate_round ext resp ver_info p
    (acks, v, q) ← translate_loop rest r.ver_info r.state
    ok (r.ack ∷ acks, v, q)
