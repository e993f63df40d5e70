-- ===== src/Iptables/Rules.antt =====
-- Which rule of cmd/iptables/main.go decides a packet: the first of its chain whose tests it passes.
use amesh.Prelude.{
  String, Bool, true, false, not, ◌&&◌, ◌≡◌, List, [], ◌∷◌, Option, none, some, ◌==◌, if◌then◌else◌,
  arith, Option-cases,
}
use amesh.Apisix.Compare.Latest.{or_else}
use amesh.StringSet.Sorted.{has}
use amesh.Iptables.{Rule, append_rule_v4, split, append_ports}

-- What the tests of a rule read of a TCP packet; `dst` has the length of its prefix.
pub record Packet : Type 0 where
  pub dport : String
  pub out : String
  pub dst : String
  pub uid : String
  pub gid : String

-- a flag and its value; the flags that test nothing of these hold
abbrev pub holds : Packet → String → String → Bool
holds k flag value =
    if flag == "--dport"
    then value == k.dport
    else if flag == "-o"
    then value == k.out
    else if flag == "-d"
    then value == k.dst
    else if flag == "--uid-owner"
    then value == k.uid
    else if flag == "--gid-owner"
    then value == k.gid
    else true

abbrev pub negate : Bool → Bool → Bool
negate false b = b
negate true b = not b

-- The parameters of a rule, read from left to right: the target with its options, if the packet
-- passes the tests before it. `!` turns the next test around.
unfoldable pub read : Packet → Bool → Option String → List String → Option (List String)
read k turned flag [] = none
read k turned (some flag) (value ∷ rest) =
    let later = read k false none rest in if negate turned (holds k flag value) then later else none
read k turned none (word ∷ rest) =
    let turn = read k true none rest in
    let test = read k turned (some word) rest in
    if word == "!" then turn else if word == "-j" then some rest else test

-- the action of the first rule of the chain that the packet passes
unfoldable pub decide : Packet → String → List Rule → Option (List String)
unfolding read
decide k chain [] = none
decide k chain (r ∷ rules) =
    let later = decide k chain rules in
    if r.chain == chain then or_else (read k false none r.params) later else later

pub decide-append_rule_v4 :
    (k : Packet) (asked chain table : String) (params : List String) (rules : List Rule)
    → decide k asked (append_rule_v4 chain table params rules)
      ≡ or_else (decide k asked rules) (if chain == asked then read k false none params else none)
unfolding decide
decide-append_rule_v4 k asked chain table params [] =
    ground (arith, Option-cases (read k false none params))
decide-append_rule_v4 k asked chain table params (r ∷ rules) = ground (
  arith,
  decide-append_rule_v4 k asked chain table params rules,
  Option-cases (read k false none r.params),
)

pub decide-append_ports :
    (k : Packet) (asked chain target : String) (ports : List String) (rules : List Rule)
    → decide k asked (append_ports chain target ports rules)
      ≡ or_else
          (decide k asked rules)
          (if (chain == asked) && has k.dport ports then some (target ∷ []) else none)
unfolding append_ports has read
decide-append_ports k asked chain target [] rules = ground arith
decide-append_ports k asked chain target (port ∷ ports) rules = ground (
  arith,
  decide-append_ports k asked chain target ports
      (append_rule_v4 chain "nat" ("-p" ∷ "tcp" ∷ "--dport" ∷ port ∷ "-j" ∷ target ∷ []) rules),
  decide-append_rule_v4 k asked chain "nat" ("-p" ∷ "tcp" ∷ "--dport" ∷ port ∷ "-j" ∷ target ∷ [])
      rules,
  Option-cases (decide k asked rules),
)

pub decide-append_excluded :
    (k : Packet) (asked chain ports : String) (rules : List Rule)
    → decide k asked
        (if ports == "" then rules else append_ports chain "RETURN" (split ports) rules)
      ≡ or_else
          (decide k asked rules)
          (if (chain == asked) && has k.dport (split ports) then some ("RETURN" ∷ []) else none)
unfolding split has
decide-append_excluded k asked chain ports rules = ground (
  arith,
  decide-append_ports k asked chain "RETURN" (split ports) rules,
  Option-cases (decide k asked rules),
)
