-- ===== src/Iptables.antt =====
-- cmd/iptables/main.go: the rules that redirect the traffic of a pod to APISIX. The rule builder,
-- the lookup of the user and the execution of commands are outside: `AppendRuleV4` is recorded call
-- by call, and what `BuildV4` makes of the calls is a parameter.
pub mod Rules
pub mod Outbound
pub mod Inbound
pub mod Chains
pub mod Ports
use amesh.Prelude.{String, Bool, List, [], ◌∷◌, ◌++◌, Result, ok, panic, ◌>>=◌, ◌==◌, if◌then◌else◌}
use amesh.Prelude.Text.{split_char}

abbrev pub inbound_chain : String
inbound_chain = "APISIX_INBOUND"

abbrev pub redirect_chain : String
redirect_chain = "APISIX_REDIRECT"

abbrev pub inbound_redirect_chain : String
inbound_redirect_chain = "APISIX_INBOUND_REDIRECT"

abbrev pub output_chain : String
output_chain = "OUTPUT"

abbrev pub pre_routing_chain : String
pre_routing_chain = "PREROUTING"

-- the fields of istio's Config that the command reads
pub record Config : Type 0 where
  pub proxy_port : String
  pub inbound_capture_port : String
  pub inbound_ports_include : String
  pub outbound_ports_include : String
  pub inbound_ports_exclude : String
  pub outbound_ports_exclude : String
  pub proxy_uid : String
  pub proxy_gid : String

-- one call of AppendRuleV4
pub record Rule : Type 0 where
  pub chain : String
  pub table : String
  pub params : List String

abbrev pub append_rule_v4 : String → String → List String → List Rule → List Rule
append_rule_v4 chain table params rules =
    rules ++ record { chain = chain; table = table; params = params } ∷ []

unfoldable pub filter_empty : List String → List String
filter_empty [] = []
filter_empty (s ∷ strs) =
    let filtered = filter_empty strs in if s == "" then filtered else s ∷ filtered

unfoldable pub split : String → List String
unfolding filter_empty
split s = if s == "" then [] else filter_empty (split_char b',' s)

-- for _, port := range ports: one rule for a port, with the same target
unfoldable pub append_ports : String → String → List String → List Rule → List Rule
append_ports chain target [] rules = rules
append_ports chain target (port ∷ ports) rules =
    append_ports chain target ports
      (append_rule_v4 chain "nat" ("-p" ∷ "tcp" ∷ "--dport" ∷ port ∷ "-j" ∷ target ∷ []) rules)

unfoldable pub insert_skip_rules : Config → List Rule → List Rule
insert_skip_rules cfg rules =
    let own_loopback =
      "-o" ∷ "lo" ∷ "!" ∷ "-d" ∷ "127.0.0.1/32" ∷ "-m" ∷ "owner" ∷ "--uid-owner" ∷ cfg.proxy_uid
      ∷ "-j" ∷ "RETURN" ∷ [] in
    let own_group = "-m" ∷ "owner" ∷ "--gid-owner" ∷ cfg.proxy_gid ∷ "-j" ∷ "RETURN" ∷ [] in
    append_rule_v4 output_chain "nat" own_group (
      append_rule_v4 output_chain "nat" ("-d" ∷ "127.0.0.1/32" ∷ "-j" ∷ "RETURN" ∷ [])
        (append_rule_v4 output_chain "nat" own_loopback rules))

-- `inboundPortsInclude` is "*"
unfoldable pub insert_all_inbound : Config → List Rule → List Rule
unfolding append_ports split
insert_all_inbound cfg rules =
    let ssh =
      append_rule_v4 inbound_chain "nat" ("-p" ∷ "tcp" ∷ "--dport" ∷ "22" ∷ "-j" ∷ "RETURN" ∷ [])
        rules in
    let excluded =
      if cfg.inbound_ports_exclude == ""
      then ssh
      else append_ports inbound_chain "RETURN" (split cfg.inbound_ports_exclude) ssh in
    append_rule_v4 inbound_chain "nat" ("-p" ∷ "tcp" ∷ "-j" ∷ inbound_redirect_chain ∷ []) excluded

unfoldable pub insert_inbound_rules : Config → List Rule → List Rule
unfolding append_ports split insert_all_inbound
insert_inbound_rules cfg rules =
    let opened =
      append_rule_v4 pre_routing_chain "nat" ("-p" ∷ "tcp" ∷ "-j" ∷ inbound_chain ∷ []) rules in
    if cfg.inbound_ports_include == ""
    then rules
    else if cfg.inbound_ports_include == "*"
    then insert_all_inbound cfg opened
    else append_ports inbound_chain inbound_redirect_chain (split cfg.inbound_ports_include) opened

unfoldable pub insert_outbound_rules : Config → List Rule → List Rule
unfolding append_ports split
insert_outbound_rules cfg rules =
    let excluded =
      if cfg.outbound_ports_exclude == ""
      then rules
      else append_ports output_chain "RETURN" (split cfg.outbound_ports_exclude) rules in
    if cfg.outbound_ports_include == ""
    then rules
    else if cfg.outbound_ports_include == "*"
    then append_rule_v4 output_chain "nat" ("-p" ∷ "tcp" ∷ "-j" ∷ redirect_chain ∷ []) excluded
    else append_ports output_chain redirect_chain (split cfg.outbound_ports_include) rules

-- the calls that `run` makes before it executes them
unfoldable pub constructed : Config → List Rule
unfolding insert_skip_rules insert_inbound_rules insert_outbound_rules
constructed cfg =
    let redirects =
      append_rule_v4 inbound_redirect_chain "nat"
        ("-p" ∷ "tcp" ∷ "-j" ∷ "REDIRECT" ∷ "--to-ports" ∷ cfg.inbound_capture_port ∷ [])
        (append_rule_v4 redirect_chain "nat"
          ("-p" ∷ "tcp" ∷ "-j" ∷ "REDIRECT" ∷ "--to-ports" ∷ cfg.proxy_port ∷ []) []) in
    insert_outbound_rules cfg (insert_inbound_rules cfg (insert_skip_rules cfg redirects))

-- one call of RunOrFail
pub record Command : Type 0 where
  pub name : String
  pub args : List String

-- The loop of executeCommand: `cmd[0]` of an empty command panics.
unfoldable pub execute_command : List (List String) → Result (List Command)
execute_command [] = ok []
execute_command ([] ∷ commands) = panic
execute_command ((name ∷ args) ∷ commands) = do
  later ← execute_command commands
  ok (record { name = name; args = args } ∷ later)

-- iptablesConstructor.run
unfoldable pub run : (List Rule → List (List String)) → Config → Result (List Command)
unfolding constructed execute_command
run build_v4 cfg = execute_command (build_v4 (constructed cfg))
