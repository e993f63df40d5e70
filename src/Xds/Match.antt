-- ===== src/Xds/Match.antt =====
-- The conditions of a route in pkg/amesh/provisioner/route_translator.go: getClusterName, getURL,
-- getParametersMatchVars, getHeadersMatchVars and getStringMatchValue. An error text has no %T part.
pub mod Vars
use Prim.Native.String.{◌++◌ as ◌+++◌}
use amesh.Prelude.{
  String, Bool, true, List, [], ◌∷◌, Option, none, some, Result, ok, err, panic, ◌>>=◌, ◌==◌,
  if◌then◌else◌,
}
use amesh.Prelude.Text.{to_lower, replace_char}
use amesh.Apisix.Var.{Var, nil, texts}
use amesh.Xds.Envoy.{
  StringMatcher, StringPattern, exact, contains, prefix, suffix, safe_regex, unknown_pattern,
  HeaderMatcher, HeaderSpecifier, string_match, contains_match, exact_match, prefix_match,
  safe_regex_match, suffix_match, present_match, unknown_header, QueryParameter, QuerySpecifier,
  present_query, string_query, unknown_query, PathSpecifier, full_path, path_prefix, unknown_path,
  ClusterSpecifier, cluster, weighted_clusters, unknown_cluster, ClusterWeight, XdsRoute,
}

-- clusters[len(clusters)-1].Name: an index out of range panics
unfoldable pub last_cluster : List ClusterWeight → Result String
last_cluster [] = panic
last_cluster (c ∷ []) = ok c.name
last_cluster (c ∷ d ∷ cs) = last_cluster (d ∷ cs)

unfoldable pub specified_cluster : ClusterSpecifier → Result String
unfolding last_cluster
specified_cluster (cluster name) = ok name
specified_cluster (weighted_clusters cs) = last_cluster cs
specified_cluster unknown_cluster = err "unsupported cluster specifier type"

unfoldable pub get_cluster_name : XdsRoute → Result String
unfolding specified_cluster
get_cluster_name route = elim route.action [
  | none ↦ err "unsupported route action type"
  | some action ↦ specified_cluster action.specifier
]

unfoldable pub uri_of : PathSpecifier → Result String
uri_of (full_path p) = ok p
uri_of (path_prefix p) = ok (p +++ "*")
uri_of unknown_path = err "unsupported path specifier type"

unfoldable pub get_url : XdsRoute → Result String
unfolding uri_of
get_url route = uri_of route.matcher.path

unfoldable pub pattern_value : StringPattern → Result String
pattern_value (exact s) = ok ("^" +++ (s +++ "$"))
pattern_value (contains s) = ok s
pattern_value (prefix s) = ok ("^" +++ s)
pattern_value (suffix s) = ok (s +++ "$")
pattern_value (safe_regex s) = ok s
pattern_value unknown_pattern = err "unknown StringMatcher type"

unfoldable pub get_string_match_value : StringMatcher → Result String
unfolding pattern_value
get_string_match_value m = pattern_value m.match_pattern

-- one round of the loop over the query parameters: a parameter of another kind leaves `expr` nil
unfoldable pub query_var : String → QuerySpecifier → Result Var
unfolding get_string_match_value
query_var name present_query = ok (texts (name ∷ "!" ∷ "~~" ∷ "^$" ∷ []))
query_var name (string_query m) = do
  value ← get_string_match_value m
  ok (texts (name ∷ (if m.ignore_case then "~*" else "~~") ∷ value ∷ []))
query_var name unknown_query = ok nil

unfoldable pub query_vars : List QueryParameter → Result (List Var)
unfolding query_var
query_vars [] = ok []
query_vars (p ∷ ps) = do
  v ← query_var ("arg_" +++ p.name) p.specifier
  vs ← query_vars ps
  ok (v ∷ vs)

unfoldable pub get_parameters_match_vars : XdsRoute → Result (List Var)
unfolding query_vars
get_parameters_match_vars route = query_vars route.matcher.query_parameters

-- the switch on header.GetName()
unfoldable pub header_var_name : String → String
header_var_name name =
    if name == ":method"
    then "request_method"
    else if name == ":authority"
    then "http_host"
    else "http_" +++ replace_char b'-' "_" (to_lower name)

-- the type switch on header.HeaderMatchSpecifier
unfoldable pub header_value : HeaderSpecifier → Result String
unfolding get_string_match_value
header_value (string_match m) = get_string_match_value m
header_value (contains_match s) = ok s
header_value (exact_match s) = ok ("^" +++ (s +++ "$"))
header_value (prefix_match s) = ok ("^" +++ s)
header_value present_match = ok ""
header_value (safe_regex_match s) = ok s
header_value (suffix_match s) = ok (s +++ "$")
header_value unknown_header = err "unexpected header matcher type"

-- the condition on a header, by InvertMatch
abbrev pub header_expr : HeaderMatcher → String → Var
header_expr header value = texts (
    header_var_name header.name
    ∷ (if header.invert_match then "!" ∷ "~~" ∷ value ∷ [] else "~~" ∷ value ∷ []))

unfoldable pub header_var : HeaderMatcher → Result Var
unfolding header_var_name header_value
header_var header = do value ← header_value header.specifier; ok (header_expr header value)

unfoldable pub header_vars : List HeaderMatcher → Result (List Var)
unfolding header_var
header_vars [] = ok []
header_vars (h ∷ hs) = do v ← header_var h; vs ← header_vars hs; ok (v ∷ vs)

unfoldable pub get_headers_match_vars : XdsRoute → Result (List Var)
unfolding header_vars
get_headers_match_vars route = header_vars route.matcher.headers
