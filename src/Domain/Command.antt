-- ===== src/Domain/Command.antt =====
-- Commands that the server hands to the agents: internal/domain/types.go.
use gate_lens.Common.{String, ℤ, Option}
use gate_lens.Domain.Values.{ProbeHttpMethod, AgentCommandKind}
use gate_lens.Domain.Envoy.{EnvoyConfig}
use gate_lens.Domain.Probe.{ProbeAgentResult}

pub record ProbeCommand : Type 0 where
  pub probe_id : String
  pub trace_id : String
  pub gateway_id : String
  pub entry_id : String
  pub method : ProbeHttpMethod
  pub path : String
  pub host : String
  pub api_key : String
  pub content_type : String
  pub body : String
  pub started_at : String

pub record AgentCommand : Type 0 where
  pub id : String
  pub cluster_id : String
  pub kind : AgentCommandKind
  pub gateway_id : String
  pub deadline : String
  pub execution_timeout_seconds : ℤ
  pub probe : Option ProbeCommand

pub record AgentCommandResult : Type 0 where
  pub command_id : String
  pub cluster_id : String
  pub config : Option EnvoyConfig
  pub probe : Option ProbeAgentResult
  pub error : String
