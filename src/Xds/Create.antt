-- ===== src/Xds/Create.antt =====
-- NewXDSProvisioner of pkg/amesh/provisioner/xds.go, with GenNodeId of pkg/xds/utils.go, which
-- pkg/amesh/util/id.go has once more.
use Prim.Native.Char.{char}
use Prim.Native.String.{◌++◌ as ◌+++◌}
use amesh.Prelude.{
  ℤ, String, false, not, ◌≡◌, refl, ap, ◌∙◌, [], ◌∷◌, Option, none, some, Result, ok, err, ◌>>=◌,
  ◌==◌, if◌then◌else◌,
}
use text.Mathlib.TextLemmas.{append_assoc}
use amesh.Prelude.Text.{has_prefix, trim_prefix, split_char}
use amesh.Prelude.Split.{has_char, split_char-last, split_char-append}
use amesh.Amesh.{AmeshProvisioner}
use amesh.Amesh.Connection.{make_amesh_provisioner}
use amesh.Xds.Provisioner.{XdsProvisioner}

-- the fields of Config; the numbers of seconds of SyncInternal is an integer
pub record Config : Type 0 where
  pub run_id : String
  pub log_level : String
  pub log_output : String
  pub xds_config_source : String
  pub amesh_config_source : String
  pub sync_internal : ℤ
  pub namespace : String
  pub ip_address : String

-- xds.GenNodeId
unfoldable pub gen_node_id : String → String → String → String
gen_node_id run_id ip_addr dns_domain =
    "sidecar~" +++ (ip_addr +++ ("~" +++ (run_id +++ ("~" +++ dns_domain))))

-- the provisioner with the id of its node and its interval
pub record Created : Type 0 where
  pub provisioner : XdsProvisioner
  pub node_id : String
  pub sync_interval : ℤ

-- The provisioner without an Amesh source; the maps and slices are nil.
abbrev pub plain_provisioner : Config → XdsProvisioner
plain_provisioner cfg = record {
  src = trim_prefix cfg.xds_config_source "grpc://";
  amesh = none;
  route_ownership = [];
  static_route_configurations = [];
  routes = [];
  upstreams = [];
  secrets = none;
  eds_required_clusters = [];
}

abbrev pub dns_domain : Config → String
dns_domain cfg = cfg.namespace +++ ".svc.cluster.local"

-- The environment and the two loggers are parameters.
module _ (env : String → String) (logger : String → Result (Unit {0})) where
  -- the Amesh provisioner, if it has a source; the test reads XDSConfigSource once more
  unfoldable pub amesh_of : Config → Result (Option AmeshProvisioner)
  unfolding make_amesh_provisioner
  amesh_of cfg =
      let made =
        make_amesh_provisioner env (logger "amesh-grpc-provisioner") >>= λ amesh. ok (some amesh) in
      if cfg.amesh_config_source == ""
      then ok none
      else if not (has_prefix cfg.xds_config_source "grpc://")
      then err "bad xds config source"
      else made

  unfoldable pub new_xds_provisioner : Config → Result Created
  unfolding amesh_of gen_node_id
  new_xds_provisioner cfg =
      let made = amesh_of cfg >>= λ amesh. ok (record {
        provisioner = record (plain_provisioner cfg) { amesh = amesh };
        node_id = gen_node_id cfg.run_id cfg.ip_address (dns_domain cfg);
        sync_interval = cfg.sync_internal;
      }) in
      logger "xds-grpc-provisioner" >>= λ _.
      if not (has_prefix cfg.xds_config_source "grpc://") then err "bad xds config source" else made

-- An id of parts without a tilde is split by tildes into the kind of node and the parts.
pub gen_node_id-parts :
    (run_id ip_addr domain : String)
    → has_char b'~' run_id ≡ false
    → has_char b'~' ip_addr ≡ false
    → has_char b'~' domain ≡ false
    → split_char b'~' (gen_node_id run_id ip_addr domain)
      ≡ "sidecar" ∷ ip_addr ∷ run_id ∷ domain ∷ []
unfolding gen_node_id has_char
gen_node_id-parts run_id ip_addr domain r i d =
    ap (λ id. split_char b'~' id)
      (append_assoc "sidecar" "~" (ip_addr +++ ("~" +++ (run_id +++ ("~" +++ domain)))))
    ∙ split_char-append (char b'~' tt) "sidecar"
        (ip_addr +++ ("~" +++ (run_id +++ ("~" +++ domain)))) refl
    ∙ ap (λ l. "sidecar" ∷ l)
        (split_char-append (char b'~' tt) ip_addr (run_id +++ ("~" +++ domain)) i
          ∙ ap (λ l. ip_addr ∷ l)
              (split_char-append (char b'~' tt) run_id domain r
                ∙ ap (λ l. run_id ∷ l) (split_char-last b'~' domain d)))
