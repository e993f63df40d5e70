-- ===== src/Tests/Redirecting.antt =====
-- Tests of the rules that redirect traffic.
use amesh.Prelude.{
  inl, inr, String, ◌≡◌, refl, List, [], ◌∷◌, Option, none, some, ◌==◌, if◌then◌else◌, Result, ok,
}
use amesh.Prelude.Text.{join}
use amesh.Iptables.{
  Config, inbound_chain, redirect_chain, inbound_redirect_chain, output_chain, pre_routing_chain,
  split, constructed,
}
use amesh.Iptables.Rules.{Packet, decide}
use amesh.Iptables.Outbound.{is_skipped, outbound}
use amesh.Iptables.Inbound.{inbound}
use amesh.Iptables.Chains.{decide-constructed-outbound, decide-constructed-inbound}
use amesh.Iptables.Ports.{split-join}

abbrev cfg : Config
cfg = record {
  proxy_port = "9080";
  inbound_capture_port = "9081";
  inbound_ports_include = "*";
  outbound_ports_include = "80,,443";
  inbound_ports_exclude = "9000";
  outbound_ports_exclude = "";
  proxy_uid = "65534";
  proxy_gid = "65534";
}

abbrev packet : Packet
packet = record { dport = "443"; out = "eth0"; dst = "10.0.0.7/32"; uid = "0"; gid = "0" }

outbound_test : decide packet output_chain (constructed cfg) ≡ some (redirect_chain ∷ [])
unfolding constructed decide amesh.Prelude.Text.split_char
outbound_test = refl

decide-constructed-outbound_example :
    decide packet output_chain (constructed cfg)
    ≡ (if is_skipped cfg packet then some ("RETURN" ∷ []) else outbound cfg packet)
decide-constructed-outbound_example = decide-constructed-outbound cfg packet

decide-constructed-inbound_example :
    (decide packet pre_routing_chain (constructed cfg)
      ≡ (if cfg.inbound_ports_include == "" then none else some (inbound_chain ∷ [])))
    × (decide packet inbound_chain (constructed cfg) ≡ inbound cfg packet)
    × (decide packet redirect_chain (constructed cfg)
        ≡ some ("REDIRECT" ∷ "--to-ports" ∷ cfg.proxy_port ∷ []))
    × (decide packet inbound_redirect_chain (constructed cfg)
        ≡ some ("REDIRECT" ∷ "--to-ports" ∷ cfg.inbound_capture_port ∷ []))
decide-constructed-inbound_example = decide-constructed-inbound cfg packet

split-join_example : split (join "," ("80" ∷ "" ∷ "443" ∷ "" ∷ [])) ≡ "80" ∷ "443" ∷ []
unfolding amesh.Prelude.Split.has_char
split-join_example = split-join ("80" ∷ "443" ∷ []) ("80" ∷ "" ∷ "443" ∷ "" ∷ []) (
    inr (
      (refl, refl),
      ("443" ∷ [], refl, inl (refl, inr ((refl, refl), ([], refl, inl (refl, refl))))),
    ))
