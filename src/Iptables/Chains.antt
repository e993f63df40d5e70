-- ===== src/Iptables/Chains.antt =====
-- What the chains that cmd/iptables/main.go builds do with each TCP packet.
use amesh.Prelude.{◌≡◌, refl, [], ◌∷◌, none, some, ◌==◌, if◌then◌else◌, arith}
use amesh.Iptables.{
  Config, inbound_chain, redirect_chain, inbound_redirect_chain, output_chain, pre_routing_chain,
  constructed,
}
use amesh.Iptables.Rules.{Packet, read, decide}
use amesh.Iptables.Outbound.{
  is_skipped, outbound, decide-insert_skip_rules, decide-insert_outbound_rules,
  decide-outbound_other,
}
use amesh.Iptables.Inbound.{inbound, decide-insert_inbound_rules, decide-inbound_other}

module _ (cfg : Config) (k : Packet) where
  -- A TCP packet on its way out returns if it is the proxy's own or goes to 127.0.0.1. Otherwise it
  -- goes to APISIX_REDIRECT if all ports are included and its own is not excluded, or if its port is
  -- in the list of those included; it returns if its port is excluded from all.
  pub decide-constructed-outbound :
      decide k output_chain (constructed cfg)
      ≡ (if is_skipped cfg k then some ("RETURN" ∷ []) else outbound cfg k)
  unfolding constructed decide
  decide-constructed-outbound =
      rw
        (
          decide-insert_outbound_rules,
          decide-inbound_other cfg k output_chain _ refl,
          decide-insert_skip_rules,
        )
        (ground arith)

  -- TCP packets on their way in go to APISIX_INBOUND unless no port is included. There they return
  -- on port 22 and on an excluded port, if all ports are included, and go to APISIX_INBOUND_REDIRECT
  -- on every other port or, without the *, on the ports of the list. The two redirecting chains
  -- send all packets to the proxy's port and to the capture port.
  pub decide-constructed-inbound :
      (decide k pre_routing_chain (constructed cfg)
        ≡ (if cfg.inbound_ports_include == "" then none else some (inbound_chain ∷ [])))
      × (decide k inbound_chain (constructed cfg) ≡ inbound cfg k)
      × (decide k redirect_chain (constructed cfg)
          ≡ some ("REDIRECT" ∷ "--to-ports" ∷ cfg.proxy_port ∷ []))
      × (decide k inbound_redirect_chain (constructed cfg)
          ≡ some ("REDIRECT" ∷ "--to-ports" ∷ cfg.inbound_capture_port ∷ []))
  unfolding constructed decide read
  decide-constructed-inbound = (
    rw
        (
          decide-outbound_other cfg k pre_routing_chain _ refl,
          decide-inbound_other cfg k pre_routing_chain _ refl,
        )
        (ground arith),
    rw (decide-outbound_other cfg k inbound_chain _ refl, decide-insert_inbound_rules)
        (ground arith),
    rw
        (
          decide-outbound_other cfg k redirect_chain _ refl,
          decide-inbound_other cfg k redirect_chain _ refl,
        )
        (ground arith),
    rw
        (
          decide-outbound_other cfg k inbound_redirect_chain _ refl,
          decide-inbound_other cfg k inbound_redirect_chain _ refl,
        )
        (ground arith),
  )
