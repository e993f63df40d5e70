-- ===== src/Iptables/Outbound.antt =====
-- What cmd/iptables/main.go does with packets on their way out: the chain OUTPUT.
use amesh.Prelude.{
  String, Bool, true, false, not, ◌&&◌, ◌≡◌, List, [], ◌∷◌, Option, none, some, ◌==◌, if◌then◌else◌,
  arith, Option-cases,
}
use amesh.Apisix.Compare.Latest.{or_else}
use amesh.StringSet.Sorted.{has}
use amesh.Iptables.{
  Config, Rule, redirect_chain, output_chain, split, append_ports, insert_skip_rules,
  insert_outbound_rules,
}
use amesh.Iptables.Rules.{
  Packet, read, decide, decide-append_rule_v4, decide-append_ports, decide-append_excluded,
}

-- A loopback packet of the proxy's user to another address, any packet to 127.0.0.1, and any packet
-- of the proxy's group.
abbrev pub is_skipped : Config → Packet → Bool
is_skipped cfg k =
    if ("lo" == k.out) && (not ("127.0.0.1/32" == k.dst) && (cfg.proxy_uid == k.uid))
    then true
    else if "127.0.0.1/32" == k.dst
    then true
    else cfg.proxy_gid == k.gid

abbrev pub outbound : Config → Packet → Option (List String)
outbound cfg k =
    if cfg.outbound_ports_include == ""
    then none
    else if cfg.outbound_ports_include == "*"
    then if has k.dport (split cfg.outbound_ports_exclude)
      then some ("RETURN" ∷ [])
      else some (redirect_chain ∷ [])
    else if has k.dport (split cfg.outbound_ports_include)
    then some (redirect_chain ∷ [])
    else none

module _ (cfg : Config) (k : Packet) where
  pub decide-insert_skip_rules :
      (rules : List Rule)
      → decide k output_chain (insert_skip_rules cfg rules)
        ≡ or_else
            (decide k output_chain rules)
            (if is_skipped cfg k then some ("RETURN" ∷ []) else none)
  unfolding insert_skip_rules read
  decide-insert_skip_rules rules =
      rw (decide-append_rule_v4, decide-append_rule_v4, decide-append_rule_v4)
        (ground (arith, Option-cases (decide k output_chain rules)))

  pub decide-insert_outbound_rules :
      (rules : List Rule)
      → decide k output_chain (insert_outbound_rules cfg rules)
        ≡ or_else (decide k output_chain rules) (outbound cfg k)
  unfolding insert_outbound_rules read
  decide-insert_outbound_rules rules = ground (
    arith,
    decide-append_rule_v4 k output_chain output_chain "nat"
        ("-p" ∷ "tcp" ∷ "-j" ∷ redirect_chain ∷ [])
        (if cfg.outbound_ports_exclude == ""
          then rules
          else append_ports output_chain "RETURN" (split cfg.outbound_ports_exclude) rules),
    decide-append_excluded k output_chain output_chain cfg.outbound_ports_exclude rules,
    decide-append_ports k output_chain output_chain redirect_chain
        (split cfg.outbound_ports_include) rules,
    Option-cases (decide k output_chain rules),
  )

  -- The parts add no rule to any other chain.
  pub decide-outbound_other :
      (asked : String) (rules : List Rule)
      → (output_chain == asked) ≡ false
      → decide k asked (insert_outbound_rules cfg rules) ≡ decide k asked rules
  unfolding insert_outbound_rules
  decide-outbound_other asked rules other = ground (
    arith,
    decide-append_rule_v4 k asked output_chain "nat" ("-p" ∷ "tcp" ∷ "-j" ∷ redirect_chain ∷ []) (
        if cfg.outbound_ports_exclude == ""
        then rules
        else append_ports output_chain "RETURN" (split cfg.outbound_ports_exclude) rules),
    decide-append_excluded k asked output_chain cfg.outbound_ports_exclude rules,
    decide-append_ports k asked output_chain redirect_chain (split cfg.outbound_ports_include)
        rules,
    Option-cases (decide k asked rules),
  )
