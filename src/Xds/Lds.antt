-- ===== src/Xds/Lds.antt =====
-- The branches of translate in pkg/amesh/provisioner/xds.go for listeners (LDS) and secrets (SDS).
pub mod Secrets
use amesh.Prelude.{
  ℕ, String, List, [], ◌∷◌, ◌++◌, Option, none, some, Map, insert, Result, ok, err, panic, ◌>>=◌,
  eqb, if◌then◌else◌,
}
use amesh.Manifest.{empty_manifest, generate_incremental_events}
use amesh.Xds.Envoy.{
  Any, RouteConfiguration, Listener, SecretType, validation_context, tls_certificate, other_secret,
}
use amesh.Xds.Externals.{Externals}
use amesh.Xds.Listener.{get_routes_from_listener}
use amesh.Xds.Provisioner.{XdsProvisioner, Translated, Secret, send_rds}

abbrev pub Owner : Type 0
Owner = String × ℕ

-- the variables of the loop: rdsNames, staticConfigs and routeOwnership
pub record Listeners : Type 0 where
  pub names : List String
  pub configs : List RouteConfiguration
  pub ownership : Map Owner

unfoldable pub own_names : Owner → List String → Map Owner → Map Owner
own_names addr [] m = m
own_names addr (name ∷ names) m = own_names addr names (insert name addr m)

unfoldable pub own_configs : Owner → List RouteConfiguration → Map Owner → Map Owner
own_configs addr [] m = m
own_configs addr (c ∷ cs) m = own_configs addr cs (insert c.name addr m)

-- the address of a listener on a socket with a port
unfoldable pub owner_of : Listener → Option Owner
owner_of l = elim l.address [
  | none ↦ none
  | some a ↦ if eqb a.port_value 0 then none else some (a.address, a.port_value)
]

-- the fields of a secret by its type
unfoldable pub secret_of : SecretType → Secret
secret_of (validation_context ca) = record {
  name = "";
  certificate = "";
  private_key = "";
  trusted_ca = ca;
}
secret_of (tls_certificate chain key) = record {
  name = "";
  certificate = chain;
  private_key = key;
  trusted_ca = "";
}
secret_of other_secret = record { name = ""; certificate = ""; private_key = ""; trusted_ca = "" }

-- p.secrets[name] = s: a write to a nil map panics
unfoldable pub store_secret : String → Secret → Option (Map Secret) → Result (Option (Map Secret))
store_secret name s none = panic
store_secret name s (some m) = ok (some (insert name s m))

module _ (ext : Externals) where
  -- what a listener on an address adds
  unfoldable pub take_listener : Owner → Listener → Listeners → Result Listeners
  unfolding own_names own_configs
  take_listener addr l s =
      elim (get_routes_from_listener ext.http_connection_manager ext.unmarshal_connection_manager
        l) [
          | panic ↦ panic
          | err e ↦ ok s
          | ok (names, cfgs) ↦ ok (record {
            names = s.names ++ names;
            configs = s.configs ++ cfgs;
            ownership = own_configs addr cfgs (own_names addr names s.ownership);
          })
        ]

  -- one round of the loop
  unfoldable pub listener_one : Any → Listeners → Result Listeners
  unfolding take_listener owner_of
  listener_one res s = elim (ext.unmarshal_listener res) [
    | none ↦ ok s
    | some l ↦ elim (owner_of l) [ none ↦ ok s | some addr ↦ take_listener addr l s ]
  ]

  unfoldable pub listener_loop : List Any → Listeners → Result Listeners
  unfolding listener_one
  listener_loop [] s = ok s
  listener_loop (res ∷ rest) s = listener_one res s >>= listener_loop rest

  unfoldable pub translate_lds : List Any → XdsProvisioner → Result Translated
  unfolding listener_loop
  translate_lds resources p = do
    s ← listener_loop resources (record { names = []; configs = []; ownership = [] })
    ok (record {
      state = record p { static_route_configurations = s.configs; route_ownership = s.ownership };
      resource_names = [];
      events = generate_incremental_events ext.marshal (some empty_manifest) (some empty_manifest);
      requests = send_rds s.names;
    })

  -- the loop over the secrets: the map and the names
  unfoldable pub secret_loop :
      Option (Map Secret) → List String → List Any → Result (Option (Map Secret) × List String)
  unfolding store_secret secret_of
  secret_loop secrets names [] = ok (secrets, names)
  secret_loop secrets names (res ∷ rest) = elim (ext.unmarshal_secret res) [
    | none ↦ secret_loop secrets names rest
    | some secret ↦ elim (store_secret secret.name (secret_of secret.type) secrets) [
      | panic ↦ panic
      | err e ↦ err e
      | ok secrets' ↦ secret_loop secrets' (names ++ secret.name ∷ []) rest
    ]
  ]

  unfoldable pub translate_sds : List Any → XdsProvisioner → Result Translated
  unfolding secret_loop
  translate_sds resources p = do
    (secrets, names) ← secret_loop p.secrets [] resources
    ok (record {
      state = record p { secrets = secrets };
      resource_names = names;
      events = generate_incremental_events ext.marshal (some empty_manifest) (some empty_manifest);
      requests = [];
    })
