-- ===== src/Iptables/Inbound.antt =====
-- What cmd/iptables/main.go does with packets on their way in: PREROUTING and APISIX_INBOUND.
use amesh.Prelude.{
  String, false, not, ◌&&◌, ◌||◌, ◌≡◌, List, [], ◌∷◌, Option, none, some, ◌==◌, if◌then◌else◌,
  arith, Option-cases,
}
use amesh.Apisix.Compare.Latest.{or_else}
use amesh.StringSet.Sorted.{has}
use amesh.Iptables.{
  Config, Rule, inbound_chain, inbound_redirect_chain, pre_routing_chain, append_rule_v4, split,
  append_ports, insert_all_inbound, insert_inbound_rules,
}
use amesh.Iptables.Rules.{
  Packet, read, decide, decide-append_rule_v4, decide-append_ports, decide-append_excluded,
}

abbrev pub inbound : Config → Packet → Option (List String)
inbound cfg k =
    if cfg.inbound_ports_include == ""
    then none
    else if cfg.inbound_ports_include == "*"
    then if ("22" == k.dport) || has k.dport (split cfg.inbound_ports_exclude)
      then some ("RETURN" ∷ [])
      else some (inbound_redirect_chain ∷ [])
    else if has k.dport (split cfg.inbound_ports_include)
    then some (inbound_redirect_chain ∷ [])
    else none

module _ (cfg : Config) (k : Packet) where
  decide-insert_all_inbound :
      (rules : List Rule)
      → decide k inbound_chain (insert_all_inbound cfg rules)
        ≡ or_else (decide k inbound_chain rules) (
            if ("22" == k.dport) || has k.dport (split cfg.inbound_ports_exclude)
            then some ("RETURN" ∷ [])
            else some (inbound_redirect_chain ∷ []))
  unfolding insert_all_inbound read
  decide-insert_all_inbound rules =
      let ssh =
        append_rule_v4 inbound_chain "nat" ("-p" ∷ "tcp" ∷ "--dport" ∷ "22" ∷ "-j" ∷ "RETURN" ∷ [])
          rules in
      ground (
        arith,
        decide-append_rule_v4 k inbound_chain inbound_chain "nat"
            ("-p" ∷ "tcp" ∷ "-j" ∷ inbound_redirect_chain ∷ [])
            (if cfg.inbound_ports_exclude == ""
              then ssh
              else append_ports inbound_chain "RETURN" (split cfg.inbound_ports_exclude) ssh),
        decide-append_excluded k inbound_chain inbound_chain cfg.inbound_ports_exclude ssh,
        decide-append_rule_v4 k inbound_chain inbound_chain "nat"
            ("-p" ∷ "tcp" ∷ "--dport" ∷ "22" ∷ "-j" ∷ "RETURN" ∷ []) rules,
        Option-cases (decide k inbound_chain rules),
      )

  pub decide-insert_inbound_rules :
      (rules : List Rule)
      → decide k inbound_chain (insert_inbound_rules cfg rules)
        ≡ or_else (decide k inbound_chain rules) (inbound cfg k)
  unfolding insert_inbound_rules read
  decide-insert_inbound_rules rules =
      let opened =
        append_rule_v4 pre_routing_chain "nat" ("-p" ∷ "tcp" ∷ "-j" ∷ inbound_chain ∷ []) rules in
      ground (
        arith,
        decide-insert_all_inbound opened,
        decide-append_ports k inbound_chain inbound_chain inbound_redirect_chain
            (split cfg.inbound_ports_include) opened,
        decide-append_rule_v4 k inbound_chain pre_routing_chain "nat"
            ("-p" ∷ "tcp" ∷ "-j" ∷ inbound_chain ∷ []) rules,
        Option-cases (decide k inbound_chain rules),
      )

  decide-all_inbound_other :
      (asked : String) (rules : List Rule)
      → (inbound_chain == asked) ≡ false
      → decide k asked (insert_all_inbound cfg rules) ≡ decide k asked rules
  unfolding insert_all_inbound
  decide-all_inbound_other asked rules other =
      let ssh =
        append_rule_v4 inbound_chain "nat" ("-p" ∷ "tcp" ∷ "--dport" ∷ "22" ∷ "-j" ∷ "RETURN" ∷ [])
          rules in
      ground (
        arith,
        decide-append_rule_v4 k asked inbound_chain "nat"
            ("-p" ∷ "tcp" ∷ "-j" ∷ inbound_redirect_chain ∷ [])
            (if cfg.inbound_ports_exclude == ""
              then ssh
              else append_ports inbound_chain "RETURN" (split cfg.inbound_ports_exclude) ssh),
        decide-append_excluded k asked inbound_chain cfg.inbound_ports_exclude ssh,
        decide-append_rule_v4 k asked inbound_chain "nat"
            ("-p" ∷ "tcp" ∷ "--dport" ∷ "22" ∷ "-j" ∷ "RETURN" ∷ []) rules,
        Option-cases (decide k asked rules),
      )

  pub decide-inbound_other :
      (asked : String) (rules : List Rule)
      → (inbound_chain == asked) ≡ false
      → decide k asked (insert_inbound_rules cfg rules)
        ≡ or_else (decide k asked rules) (
            if (pre_routing_chain == asked) && not (cfg.inbound_ports_include == "")
            then some (inbound_chain ∷ [])
            else none)
  unfolding insert_inbound_rules read
  decide-inbound_other asked rules other =
      let opened =
        append_rule_v4 pre_routing_chain "nat" ("-p" ∷ "tcp" ∷ "-j" ∷ inbound_chain ∷ []) rules in
      ground (
        arith,
        decide-all_inbound_other asked opened,
        decide-append_ports k asked inbound_chain inbound_redirect_chain
            (split cfg.inbound_ports_include) opened,
        decide-append_rule_v4 k asked pre_routing_chain "nat"
            ("-p" ∷ "tcp" ∷ "-j" ∷ inbound_chain ∷ []) rules,
        Option-cases (decide k asked rules),
      )
