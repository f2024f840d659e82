-- ===== src/Domain/Envoy.antt =====
-- The Envoy configuration that an agent reads: internal/domain/types.go.
use gate_lens.Common.{String, ℤ, Bool, List}
use gate_lens.Domain.Values.{Status}

pub record EnvoyExtensionAttachment : Type 0 where
  pub listener_id : String
  pub listener_name : String
  pub filter_chain : String
  pub filter_name : String
  pub filter_type : String
  pub position : ℤ

pub record EnvoyExtensionDependency : Type 0 where
  pub kind : String
  pub name : String
  pub relation : String
  pub evidence : String
  pub resolved : Bool

pub record EnvoyExtension : Type 0 where
  pub id : String
  pub name : String
  pub kind : String
  pub type_url : String
  pub status : Status
  pub config_source : String
  pub config_summary : String
  pub attachments : List EnvoyExtensionAttachment
  pub dependencies : List EnvoyExtensionDependency

pub record EnvoyWeightedCluster : Type 0 where
  pub name : String
  pub weight : ℤ

pub record EnvoyRouteExtProcTarget : Type 0 where
  pub filter_name : String
  pub type_url : String
  pub grpc_clusters : List String

pub record EnvoyRoute : Type 0 where
  pub name : String
  pub match : String
  pub cluster : String
  pub weighted_clusters : List EnvoyWeightedCluster
  pub ext_procs : List EnvoyRouteExtProcTarget

pub record EnvoyHttpFilter : Type 0 where
  pub name : String
  pub type : String
  pub stage : String
  pub config_summary : String
  pub terminal : Bool

pub record EnvoyFilterChain : Type 0 where
  pub name : String
  pub match : String
  pub transport : String
  pub http_filters : List EnvoyHttpFilter
  pub routes : List EnvoyRoute

pub record EnvoyListener : Type 0 where
  pub id : String
  pub name : String
  pub address : String
  pub port : ℤ
  pub protocol : String
  pub status : Status
  pub filter_chains : List EnvoyFilterChain

pub record EnvoyEndpoint : Type 0 where
  pub address : String
  pub port : ℤ
  pub status : Status
  pub health : String
  pub weight : ℤ

pub record EnvoyCluster : Type 0 where
  pub name : String
  pub type : String
  pub discovery : String
  pub connect_timeout : String
  pub endpoints : List EnvoyEndpoint

pub record EnvoyConfig : Type 0 where
  pub snapshot_id : String
  pub observed_at : String
  pub state : String
  pub source : String
  pub proxy : String
  pub gateway_id : String
  pub controller : String
  pub workload : String
  pub sampled_pod : String
  pub ready_replicas : ℤ
  pub listeners : List EnvoyListener
  pub clusters : List EnvoyCluster
  pub extensions : List EnvoyExtension
  pub raw_config : String
