-- ===== src/Xds/Split.antt =====
-- translateRoutePlugins and translateRouteWeightedClusters of
-- pkg/amesh/provisioner/route_translator.go: weighted clusters become the traffic-split plugin.
pub mod Resolve
use amesh.Prelude.{
  ℕ, String, List, [], ◌∷◌, Option, none, some, Map, insert, Result, ok, panic, ◌>>=◌,
}
use amesh.Apisix.Plugin.{
  traffic_split, plugin_traffic_split, TrafficSplit, TrafficSplitRule,
  TrafficSplitWeightedUpstreams,
}
use amesh.Apisix.Route.{Route}
use amesh.Xds.Envoy.{
  ClusterWeight, ClusterSpecifier, cluster, weighted_clusters, unknown_cluster, RouteAction,
  XdsRoute,
}

-- weightedCluster.Weight.Value of a nil weight panics
unfoldable pub weight_of : ClusterWeight → Result ℕ
weight_of c = elim c.weight [ none ↦ panic | some w ↦ ok w ]

-- id.GenID is a parameter.
module _ (gen_id : String → String) where
  -- the loop over the clusters: the last one is the default upstream and has no id
  unfoldable pub split_loop : List ClusterWeight → Result (List TrafficSplitWeightedUpstreams)
  unfolding weight_of
  split_loop [] = ok []
  split_loop (c ∷ []) = do w ← weight_of c; ok (record { upstream_id = ""; weight = w } ∷ [])
  split_loop (c ∷ d ∷ cs) = do
    w ← weight_of c
    rest ← split_loop (d ∷ cs)
    ok (record { upstream_id = gen_id c.name; weight = w } ∷ rest)

  unfoldable pub translate_route_weighted_clusters : ClusterSpecifier → Route → Result Route
  unfolding split_loop
  translate_route_weighted_clusters (cluster name) r = ok r
  translate_route_weighted_clusters unknown_cluster r = ok r
  translate_route_weighted_clusters (weighted_clusters cs) r = do
    weighted ← split_loop cs
    ok (record r {
      plugins =
          insert plugin_traffic_split
            (traffic_split
              (record { rules = record { matches = []; weighted_upstreams = weighted } ∷ [] }))
            r.plugins;
    })

  unfoldable pub translate_route_plugins : XdsRoute → Route → Result Route
  unfolding translate_route_weighted_clusters
  translate_route_plugins xds_route r = elim xds_route.action [
    | none ↦ ok r
    | some action ↦ translate_route_weighted_clusters action.specifier r
  ]
