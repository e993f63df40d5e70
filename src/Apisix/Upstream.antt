-- ===== src/Apisix/Upstream.antt =====
-- pkg/apisix/upstream.go, and the timeout of pkg/apisix/base.go. A float64 field holds a number of
-- seconds, which the code only ever sets to a whole number.
use amesh.Prelude.{ℤ, String, Bool, List, Option, Map}
use amesh.Apisix.Plugin.{Config}

pub record Timeout : Type 0 where
  pub connect : ℤ
  pub send : ℤ
  pub read : ℤ

abbrev pub protocol_scheme_http : String
protocol_scheme_http = "http"

pub record Node : Type 0 where
  pub host : String
  pub port : ℤ
  pub weight : ℤ
  pub metadata : Option Config

pub record ActiveHealthCheckHealthy : Type 0 where
  pub interval : ℤ
  pub http_statuses : List ℤ
  pub successes : ℤ

pub record ActiveHealthCheckUnhealthy : Type 0 where
  pub interval : ℤ
  pub http_statuses : List ℤ
  pub http_failures : ℤ
  pub tcp_failures : ℤ
  pub timeouts : ℤ

pub record ActiveHealthCheck : Type 0 where
  pub type : String
  pub timeout : ℤ
  pub concurrency : ℤ
  pub host : String
  pub port : ℤ
  pub http_path : String
  pub https_verify_certificate : Bool
  pub healthy : Option ActiveHealthCheckHealthy
  pub unhealthy : Option ActiveHealthCheckUnhealthy
  pub req_headers : List String

pub record PassiveHealthCheckHealthy : Type 0 where
  pub http_statuses : List ℤ
  pub successes : ℤ

pub record PassiveHealthCheckUnhealthy : Type 0 where
  pub http_statuses : List ℤ
  pub http_failures : ℤ
  pub tcp_failures : ℤ
  pub timeouts : ℤ

pub record PassiveHealthCheck : Type 0 where
  pub type : String
  pub healthy : Option PassiveHealthCheckHealthy
  pub unhealthy : Option PassiveHealthCheckUnhealthy

pub record HealthCheck : Type 0 where
  pub active : Option ActiveHealthCheck
  pub passive : Option PassiveHealthCheck

pub record UpstreamTlsConfig : Type 0 where
  pub client_cert : String
  pub client_key : String

pub record KeepalivePool : Type 0 where
  pub size : ℤ
  pub requests : ℤ
  pub idle_timeout : ℤ

pub record Upstream : Type 0 where
  pub create_time : ℤ
  pub update_time : ℤ
  pub nodes : List Node
  pub retries : ℤ
  pub timeout : Option Timeout
  pub tls : Option UpstreamTlsConfig
  pub keepalive_pool : Option KeepalivePool
  pub type : String
  pub check : Option HealthCheck
  pub hash_on : String
  pub key : String
  pub scheme : String
  pub labels : Map String
  pub pass_host : String
  pub upstream_host : String
  pub name : String
  pub desc : String
  pub id : String
