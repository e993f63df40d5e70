-- ===== src/Tests/Comparing.antt =====
-- Tests of the comparison, the events and the data storage.
use amesh.Prelude.{pos, String, refl, [], ◌∷◌, some, Map, lookup, arith}
use amesh.Apisix.Compare.{compare_resources}
use amesh.Apisix.Compare.Latest.{latest}
use amesh.Apisix.Compare.Exact.{IsExact, compare_resources-IsExact}
use amesh.Manifest.{Manifest, empty_manifest, generate_incremental_events}
use amesh.Agent.{Agent, store_events}
use amesh.Agent.Sync.{IsServed, Mirrors, store_events-Mirrors}
use amesh.Tests.Resources.{
  plain_route, plain_upstream, node, map_storage, map_contract, route_name, upstream_name, by_name,
  no_data,
}

abbrev pub first : Manifest
first = record {
  routes = plain_route "a" "one" ∷ plain_route "b" "two" ∷ [];
  upstreams = plain_upstream "u" (node "10.0.0.1" (pos 80) ∷ []) ∷ [];
}

abbrev second : Manifest
second = record { routes = plain_route "b" "three" ∷ plain_route "c" "four" ∷ []; upstreams = [] }

pub first-IsServed : IsServed first.upstreams
unfolding latest
first-IsServed k u h = ground arith

abbrev after_first : Agent (Map String)
after_first =
    store_events map_storage by_name "1"
      (generate_incremental_events by_name (some first) (some empty_manifest)) no_data

first-Mirrors :
    Mirrors map_storage map_contract by_name route_name upstream_name
      (λ r. refl)
      (λ u. refl)
      first
      after_first.data_storage
unfolding latest lookup
first-Mirrors =
    store_events-Mirrors map_storage map_contract by_name route_name upstream_name (λ r. refl)
      (λ u. refl) empty_manifest first "1" no_data (λ k u h. cc) first-IsServed
      (record { routes = λ k. refl; upstreams = λ k. refl })

store_events-Mirrors_example :
    Mirrors map_storage map_contract by_name route_name upstream_name
      (λ r. refl)
      (λ u. refl)
      second
      (store_events map_storage by_name "2"
        (generate_incremental_events by_name (some second) (some first))
        after_first).data_storage
unfolding latest
store_events-Mirrors_example =
    store_events-Mirrors map_storage map_contract by_name route_name upstream_name (λ r. refl)
      (λ u. refl) first second "2" after_first first-IsServed (λ k u h. cc) first-Mirrors

compare_resources-IsExact_example :
    IsExact
      (λ r. r.id)
      (λ r. some (route_name r))
      first.routes
      second.routes
      (compare_resources (λ r. r.id) (λ r. some (route_name r)) first.routes second.routes)
compare_resources-IsExact_example =
    compare_resources-IsExact (λ r. r.id) (λ r. some (route_name r)) first.routes second.routes
