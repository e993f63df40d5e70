-- ===== src/Agent/Server.antt =====
-- The helpers of pkg/amesh/agent.go around its servers: the namespace, the address, the headers and
-- the ports. The environment, the interfaces of the host and the headers are parameters.
use Prim.Native.String.{◌++◌ as ◌+++◌}
use amesh.Prelude.{
  ℤ, String, true, false, List, [], ◌∷◌, Option, none, some, Map, insert, Result, ok, err, panic,
  ◌>>=◌, ◌==◌, if◌then◌else◌,
}
use amesh.Prelude.Text.{split_char, trim_prefix}

unfoldable pub get_namespace : (String → String) → String
get_namespace env = let value = env "POD_NAMESPACE" in if value == "" then "default" else value

-- a network interface: its name, and its addresses with their masks
pub record Interface : Type 0 where
  pub name : String
  pub addrs : Result (List String)

-- the part of an address before the mask
unfoldable pub address_of : String → String
address_of addr = elim (split_char b'/' addr) [ [] ↦ "" | host ∷ _ ↦ host ]

-- the address after one interface
abbrev pub next_address : String → List String → String
next_address ip_addr [] = ip_addr
next_address ip_addr (addr ∷ _) = address_of addr

-- the loop over the interfaces: the last one with an address decides
unfoldable pub ip_loop : String → List Interface → Result String
unfolding address_of
ip_loop ip_addr [] = ok ip_addr
ip_loop ip_addr (iface ∷ ifaces) = elim (iface.name == "lo") [
  | true ↦ ip_loop ip_addr ifaces
  | false ↦ elim iface.addrs [
    | panic ↦ panic
    | err message ↦ err message
    | ok addrs ↦ ip_loop (next_address ip_addr addrs) ifaces
  ]
]

-- An error of net.Interfaces panics.
unfoldable pub get_ip_addr : Result (List Interface) → Result String
unfolding ip_loop
get_ip_addr panic = panic
get_ip_addr (err message) = panic
get_ip_addr (ok ifaces) = do
  ip_addr ← ip_loop "" ifaces
  ok (if ip_addr == "" then "127.0.0.1" else ip_addr)

-- `get` is http.Header.Get of the source, and a set of the destination is an insertion.
unfoldable pub apply_headers : (String → String) → List String → Map String → Map String
apply_headers get [] dest = dest
apply_headers get (key ∷ keys) dest =
    let value = get key in
    apply_headers get keys (if value == "" then dest else insert key value dest)

-- The port of a server: none if it does not start. A port that is no number ends the process.
unfoldable pub server_port : (String → Result ℤ) → String → String → String → Result (Option ℤ)
server_port parse_int off default_port port =
    if port == off
    then ok none
    else (parse_int (if port == "" then default_port else port) >>= λ parsed. ok (some parsed))

-- The status server is off without a port, and the metrics server with the port NONE.
unfoldable pub status_port : (String → Result ℤ) → (String → String) → Result (Option ℤ)
unfolding server_port
status_port parse_int env = server_port parse_int "" "9999" (env "STATUS_SERVER_PORT")

unfoldable pub metrics_port : (String → Result ℤ) → (String → String) → Result (Option ℤ)
unfolding server_port
metrics_port parse_int env = server_port parse_int "NONE" "15090" (env "METRICS_SERVER_PORT")

-- the handler of /sds/: the name that SendSds is called with, if any, and the body of the answer
unfoldable pub sds_handler : String → Option String × String
sds_handler path =
    let name = trim_prefix path "/sds/" in
    (if name == "" then none else some name, "Sending SDS: " +++ name)
