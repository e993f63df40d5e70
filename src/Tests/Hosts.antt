-- ===== src/Tests/Hosts.antt =====
-- Tests of the sets of texts and of the translation of a virtual host.
use amesh.Prelude.{String, true, false, ◌≡◌, List, [], map, Option, some, All}
use amesh.Apisix.Route.{Route}
use amesh.Amesh.{new_amesh_provisioner, get_plugins}
use amesh.StringSet.Sorted.{has, IsSorted}
use amesh.Xds.Match.{get_cluster_name, get_url, get_parameters_match_vars, get_headers_match_vars}
use amesh.Xds.Patch.{patch_amesh_plugins}
use amesh.Xds.Split.{translate_route_plugins}
use amesh.Xds.VirtualHost.{hosts_of, translate_virtual_host}
use amesh.Xds.VirtualHost.Hosts.{host_of, hosts_of_lem}
use amesh.Xds.VirtualHost.Shape.{IsServedRoute, translate_virtual_host-All}
use amesh.Tests.Running.{IsOk, value_of, value_of_lem, sample, shop_host}

hosts_of_example :
    (has "*" shop_host.domains ≡ true → hosts_of shop_host ≡ [])
    × (has "*" shop_host.domains ≡ false
        → IsSorted (hosts_of shop_host)
          × ((k : String) → has k (hosts_of shop_host) ≡ has k (map host_of shop_host.domains)))
hosts_of_example = hosts_of_lem shop_host

shop_translated : IsOk (translate_virtual_host sample (some new_amesh_provisioner) "80" shop_host)
unfolding translate_virtual_host get_cluster_name get_url get_parameters_match_vars
    get_headers_match_vars patch_amesh_plugins get_plugins translate_route_plugins
shop_translated = tt

abbrev shop_routes : List Route × Option String
shop_routes =
    value_of (translate_virtual_host sample (some new_amesh_provisioner) "80" shop_host)
      shop_translated

translate_virtual_host-All_example : All (IsServedRoute shop_host) shop_routes.0
translate_virtual_host-All_example =
    translate_virtual_host-All sample (some new_amesh_provisioner) "80" shop_host shop_routes.0
      shop_routes.1 (value_of_lem _ shop_translated)
