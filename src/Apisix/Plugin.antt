-- ===== src/Apisix/Plugin.antt =====
-- pkg/apisix/plugins.go and the plugin types of pkg/amesh/types/types.go: what a route's plugin map
-- holds. A JSON object that the code decodes into map[string]interface{} and only passes on is a
-- `Config`; a number in it is its literal.
use amesh.Prelude.{ℕ, String, Bool, List, Option}
use amesh.Prelude.{ℤ}
use amesh.Apisix.Var.{Var}

mutual
  pub data Json : Type 0 where
    null : Json
    bool : Bool → Json
    num : String → Json
    str : String → Json
    arr : Items → Json
    obj : Config → Json

  pub data Items : Type 0 where
    nil : Items
    cons : Json → Items → Items

  pub data Config : Type 0 where
    end : Config
    field : String → Json → Config → Config

abbrev pub plugin_fault_injection : String
plugin_fault_injection = "fault-injection"

abbrev pub plugin_proxy_mirror : String
plugin_proxy_mirror = "proxy-mirror"

abbrev pub plugin_traffic_split : String
plugin_traffic_split = "traffic-split"

abbrev pub plugin_prometheus : String
plugin_prometheus = "prometheus"

pub record FaultInjectionAbort : Type 0 where
  pub http_status : ℕ
  pub body : String
  pub percentage : ℕ
  pub vars : List Var

pub record FaultInjectionDelay : Type 0 where
  pub duration : ℤ
  pub percentage : ℕ
  pub vars : List Var

pub record FaultInjection : Type 0 where
  pub abort : Option FaultInjectionAbort
  pub delay : Option FaultInjectionDelay

pub record TrafficSplitWeightedUpstreams : Type 0 where
  pub upstream_id : String
  pub weight : ℕ

pub record TrafficSplitRule : Type 0 where
  pub matches : List Var
  pub weighted_upstreams : List TrafficSplitWeightedUpstreams

pub record TrafficSplit : Type 0 where
  pub rules : List TrafficSplitRule

-- SampleRatio is float32(percent) / 100; the percent is kept.
pub record ProxyMirror : Type 0 where
  pub host : String
  pub path : String
  pub sample_percent : ℕ

pub record Prometheus : Type 0 where
  pub prefer_name : Bool

-- types.ApisixExtPlugin and types.ApisixExtPluginConfig
pub record ApisixExtPlugin : Type 0 where
  pub name : String
  pub value : Config

pub record ApisixExtPluginConfig : Type 0 where
  pub conf : List ApisixExtPlugin

-- types.ApisixPlugin
pub record ApisixPlugin : Type 0 where
  pub type : String
  pub name : String
  pub config : Config

-- The dynamic types that the code stores in `Route.Plugins`.
pub data Plugin : Type 0 where
  fault_injection : FaultInjection → Plugin
  traffic_split : TrafficSplit → Plugin
  proxy_mirror : ProxyMirror → Plugin
  prometheus : Prometheus → Plugin
  ext_plugin : ApisixExtPluginConfig → Plugin
  custom : Config → Plugin
