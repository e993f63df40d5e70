-- ===== src/Xds/VirtualHost/Hosts.antt =====
-- The hosts of a virtual host: translateVirtualHost of pkg/amesh/provisioner/route_translator.go.
use amesh.Prelude.{
  String, Bool, true, false, ◌≡◌, refl, ◌∙◌, List, [], ◌∷◌, map, lookup, is_some, insert,
  lookup-insert, eq_iff, arith, if◌then◌else◌,
}
use amesh.Prelude.Text.{before}
use amesh.StringSet.{StringSet, add, strings, sort_strings, ordered_strings}
use amesh.StringSet.Sorted.{has, IsSorted, ordered_strings-IsSorted}
use amesh.Xds.Envoy.{VirtualHost}
use amesh.Xds.VirtualHost.{host_loop, hosts_of}

-- a domain without its port
abbrev pub host_of : String → String
host_of domain = before b':' domain

host_loop-any :
    (set : StringSet) (domains : List String) → has "*" domains ≡ true → host_loop set domains ≡ []
unfolding host_loop has
host_loop-any set [] h = absurd (cc h)
host_loop-any set (d ∷ ds) h = ground (arith, host_loop-any (add (host_of d) set) ds, eq_iff d "*")

lookup-host_loop :
    (k : String) (set : StringSet) (domains : List String)
    → has "*" domains ≡ false
    → is_some (lookup k (host_loop set domains))
      ≡ (if has k (map host_of domains) then true else is_some (lookup k set))
unfolding host_loop has add
lookup-host_loop k set [] h = refl
lookup-host_loop k set (d ∷ ds) h = ground (
  arith,
  lookup-host_loop k (insert (host_of d) tt set) ds,
  lookup-insert (host_of d) k tt set,
  eq_iff d "*",
)

-- A virtual host with the domain * has no hosts; without it the hosts are sorted and are exactly
-- its domains without their ports.
pub hosts_of_lem :
    (vhost : VirtualHost)
    → (has "*" vhost.domains ≡ true → hosts_of vhost ≡ [])
      × (has "*" vhost.domains ≡ false
          → IsSorted (hosts_of vhost)
            × ((k : String) → has k (hosts_of vhost) ≡ has k (map host_of vhost.domains)))
unfolding hosts_of
hosts_of_lem vhost = (
  λ any. rw (host_loop-any [] vhost.domains any) empty_sorted,
  λ none_any.
      let sorted = ordered_strings-IsSorted (host_loop [] vhost.domains) in
      (
        sorted.0,
        λ k. sorted.1 k ∙ lookup-host_loop k [] vhost.domains none_any ∙ no_others k (has k _),
      ),
)
  where
    empty_sorted : ordered_strings [] ≡ []
    empty_sorted = unfold ordered_strings strings sort_strings in refl

    no_others :
        (k : String) (b : Bool) → (if b then true else is_some (lookup {V = Unit {0}} k [])) ≡ b
    no_others k true = refl
    no_others k false = unfold lookup in refl
