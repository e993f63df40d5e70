-- ===== src/Xds/Fault.antt =====
-- convertPercent, convertRuntimePercent and translateRouteFilters of
-- pkg/amesh/provisioner/route_translator.go: the fault filter of a route becomes a plugin.
pub mod Percent
use amesh.Prelude.{
  ℕ, ◌/◌, String, Bool, List, [], ◌∷◌, Option, none, some, Map, insert, ltb, ◌==◌, if◌then◌else◌,
}
use amesh.Apisix.Plugin.{
  Plugin, fault_injection, plugin_fault_injection, FaultInjection, FaultInjectionAbort,
  FaultInjectionDelay,
}
use amesh.Apisix.Route.{Route}
use amesh.Xds.Envoy.{
  Any, FractionalPercent, Denominator, hundred, ten_thousand, million, unknown_denominator,
  HttpFault, FaultAbort, AbortError, http_status, unknown_abort, FaultDelay, DelaySpecifier,
  fixed_delay, unknown_delay,
}

abbrev pub http_fault_v3 : String
http_fault_v3 = "type.googleapis.com/envoy.extensions.filters.http.fault.v3.HTTPFault"

-- the switch on the denominator; the division is that of uint32
unfoldable pub percentage_of : ℕ → Denominator → ℕ
percentage_of n million = n / 10000
percentage_of n ten_thousand = n / 100
percentage_of n hundred = n
percentage_of n unknown_denominator = 0

unfoldable pub convert_percent : Option FractionalPercent → ℕ
unfolding percentage_of
convert_percent none = 0
convert_percent (some p) =
    let percentage = percentage_of p.numerator p.denominator in
    if ltb 100 percentage then 100 else percentage

-- the percentage of a RuntimeFractionalPercent is its default value
unfoldable pub convert_runtime_percent : Option (Option FractionalPercent) → ℕ
unfolding convert_percent
convert_runtime_percent none = 0
convert_runtime_percent (some default_value) = convert_percent default_value

-- the abort of the plugin, or `none` where the filter is passed over
unfoldable pub abort_of : FaultAbort → Option FaultInjectionAbort
unfolding convert_percent
abort_of a = elim a.error_type [
  | http_status status ↦ some (record {
    http_status = status;
    body = "";
    percentage = convert_percent a.percentage;
    vars = [];
  })
  | unknown_abort ↦ none
]

unfoldable pub delay_of : FaultDelay → Option FaultInjectionDelay
unfolding convert_percent
delay_of d = elim d.specifier [
  | fixed_delay seconds ↦
      some (record { duration = seconds; percentage = convert_percent d.percentage; vars = [] })
  | unknown_delay ↦ none
]

-- a part that is absent stays absent; a part of another kind passes the filter over
abbrev part_of {ℓ κ} : {A : Type ℓ} {B : Type κ} → (A → Option B) → Option A → Option (Option B)
part_of f none = some none
part_of f (some a) = elim (f a) [ none ↦ none | some b ↦ some (some b) ]

unfoldable pub fault_plugin : HttpFault → Option FaultInjection
unfolding abort_of delay_of
fault_plugin fault = elim (part_of abort_of fault.abort) [
  | none ↦ none
  | some abort ↦ elim (part_of delay_of fault.delay) [
    | none ↦ none
    | some delay ↦ some (record { abort = abort; delay = delay })
  ]
]

-- The name of the fault filter and the decoder of its message are parameters.
module _ (fault_filter : String) (unmarshal_fault : Any → Option HttpFault) where
  -- one round of the loop over TypedPerFilterConfig
  unfoldable pub filter_one : String → Any → Map Plugin → Map Plugin
  unfolding fault_plugin
  filter_one name config plugins =
      if name == fault_filter
      then (if config.type_url == http_fault_v3
          then (elim (unmarshal_fault config) [
            | none ↦ plugins
            | some fault ↦ elim (fault_plugin fault) [
              | none ↦ plugins
              | some plugin ↦ insert plugin_fault_injection (fault_injection plugin) plugins
            ]
          ])
          else plugins)
      else plugins

  unfoldable pub filter_loop : Map Any → Map Plugin → Map Plugin
  filter_loop [] plugins = plugins
  filter_loop ((name, config) ∷ rest) plugins = filter_loop rest (filter_one name config plugins)

  unfoldable pub translate_route_filters : Map Any → Route → Route
  unfolding filter_one filter_loop
  translate_route_filters configs r = record r { plugins = filter_loop configs r.plugins }
