-- ===== src/Xds/Envoy.antt =====
-- The messages of Envoy's API as the translators of pkg/amesh/provisioner read them: a record has
-- the fields that the code reads, a oneof has the cases that its type switches name and one for
-- the rest. The messages themselves are generated code of another project.
use amesh.Prelude.{ℕ, ℤ, String, Bool, List, Option, Map}

-- anypb.Any
pub record Any : Type 0 where
  pub type_url : String
  pub value : String

pub data StringPattern : Type 0 where
  exact contains prefix suffix safe_regex : String → StringPattern
  unknown_pattern : StringPattern

pub record StringMatcher : Type 0 where
  pub match_pattern : StringPattern
  pub ignore_case : Bool

pub data HeaderSpecifier : Type 0 where
  string_match : StringMatcher → HeaderSpecifier
  contains_match exact_match prefix_match safe_regex_match suffix_match : String → HeaderSpecifier
  present_match : HeaderSpecifier
  unknown_header : HeaderSpecifier

pub record HeaderMatcher : Type 0 where
  pub name : String
  pub specifier : HeaderSpecifier
  pub invert_match : Bool

pub data QuerySpecifier : Type 0 where
  present_query : QuerySpecifier
  string_query : StringMatcher → QuerySpecifier
  unknown_query : QuerySpecifier

pub record QueryParameter : Type 0 where
  pub name : String
  pub specifier : QuerySpecifier

pub data PathSpecifier : Type 0 where
  full_path path_prefix : String → PathSpecifier
  unknown_path : PathSpecifier

pub record RouteMatch : Type 0 where
  pub path : PathSpecifier
  pub case_sensitive : Option Bool
  pub query_parameters : List QueryParameter
  pub headers : List HeaderMatcher

-- A weight that is not set is a nil pointer.
pub record ClusterWeight : Type 0 where
  pub name : String
  pub weight : Option ℕ

pub data ClusterSpecifier : Type 0 where
  cluster : String → ClusterSpecifier
  weighted_clusters : List ClusterWeight → ClusterSpecifier
  unknown_cluster : ClusterSpecifier

-- `timeout` is the whole seconds of the duration.
pub record RouteAction : Type 0 where
  pub specifier : ClusterSpecifier
  pub timeout : Option ℤ

-- `action` is what GetRoute returns: none for the other kinds of action.
-- `has_match` tells whether Match is set; if it is nil, `matcher` means nothing.
pub record XdsRoute : Type 0 where
  pub name : String
  pub has_match : Bool
  pub matcher : RouteMatch
  pub action : Option RouteAction
  pub typed_per_filter_config : Map Any

pub record VirtualHost : Type 0 where
  pub name : String
  pub domains : List String
  pub routes : List XdsRoute

pub record RouteConfiguration : Type 0 where
  pub name : String
  pub virtual_hosts : List VirtualHost

pub data Denominator : Type 0 where
  hundred ten_thousand million unknown_denominator : Denominator

pub record FractionalPercent : Type 0 where
  pub numerator : ℕ
  pub denominator : Denominator

pub data AbortError : Type 0 where
  http_status : ℕ → AbortError
  unknown_abort : AbortError

pub record FaultAbort : Type 0 where
  pub error_type : AbortError
  pub percentage : Option FractionalPercent

pub data DelaySpecifier : Type 0 where
  fixed_delay : ℤ → DelaySpecifier
  unknown_delay : DelaySpecifier

pub record FaultDelay : Type 0 where
  pub specifier : DelaySpecifier
  pub percentage : Option FractionalPercent

pub record HttpFault : Type 0 where
  pub abort : Option FaultAbort
  pub delay : Option FaultDelay

pub data PortSpecifier : Type 0 where
  port_value : ℕ → PortSpecifier
  named_port : String → PortSpecifier
  unset_port : PortSpecifier

pub record SocketAddress : Type 0 where
  pub is_tcp : Bool
  pub address : String
  pub port : PortSpecifier

pub data Address : Type 0 where
  socket_address : SocketAddress → Address
  unknown_address : Address

-- The address of an endpoint is set: a nil one, on which the code panics, has no counterpart.
pub data HostIdentifier : Type 0 where
  endpoint : Address → HostIdentifier
  unknown_host : HostIdentifier

pub record LbEndpoint : Type 0 where
  pub load_balancing_weight : Option ℕ
  pub host_identifier : HostIdentifier

pub record LocalityLbEndpoints : Type 0 where
  pub load_balancing_weight : Option ℕ
  pub lb_endpoints : List LbEndpoint

pub record ClusterLoadAssignment : Type 0 where
  pub cluster_name : String
  pub endpoints : List LocalityLbEndpoints

pub data LbPolicy : Type 0 where
  round_robin least_request other_policy : LbPolicy

pub data DiscoveryType : Type 0 where
  eds other_discovery : DiscoveryType

-- `has_cluster_type` tells that the custom cluster type is set; GetType is then static.
pub record Cluster : Type 0 where
  pub name : String
  pub lb_policy : LbPolicy
  pub connect_timeout : Option ℤ
  pub has_cluster_type : Bool
  pub discovery_type : DiscoveryType
  pub load_assignment : Option ClusterLoadAssignment

-- The socket address of a listener; a named port has value 0.
pub record ListenerAddress : Type 0 where
  pub address : String
  pub port_value : ℕ

pub record NetworkFilter : Type 0 where
  pub name : String
  pub typed_config : Any

pub record Listener : Type 0 where
  pub address : Option ListenerAddress
  pub filter_chains : List (List NetworkFilter)

-- the route specifier of an HttpConnectionManager
pub data RouteSpecifier : Type 0 where
  rds : String → RouteSpecifier
  route_config : RouteConfiguration → RouteSpecifier
  scoped_routes : RouteSpecifier
  no_routes : RouteSpecifier

-- the type of a secret with the bytes that the code reads
pub data SecretType : Type 0 where
  validation_context : String → SecretType
  tls_certificate : String → String → SecretType
  other_secret : SecretType

pub record TlsSecret : Type 0 where
  pub name : String
  pub type : SecretType

-- the type URLs of resourcev3, and any other text
pub data TypeUrl : Type 0 where
  route_url cluster_url load_assignment_url listener_url secret_url : TypeUrl
  other_url : String → TypeUrl

pub record DiscoveryResponse : Type 0 where
  pub type_url : TypeUrl
  pub version_info : String
  pub nonce : String
  pub resources : List Any

-- A request; the node is the same in all of them and is left out.
pub record DiscoveryRequest : Type 0 where
  pub type_url : TypeUrl
  pub resource_names : List String
  pub response_nonce : String
  pub version_info : String
  pub error_detail : Option String
