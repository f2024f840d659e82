-- ===== src/Domain/Issues.antt =====
-- Probe issues and their identity: internal/domain/probe_protocol.go.
pub mod Laws
use gate_lens.Common.{String, Bool, List, [], ◌∷◌, ◌++◌, ◌==◌, ◌&&◌, any, if◌then◌else◌}
use gate_lens.Domain.Values.{
  ProbeIssueScope, ProbeIssueCode, is_case, probe_issue_code_log_source_rotated,
  probe_issue_code_log_window_truncated, probe_issue_code_log_order_unconfirmed,
}

pub record ProbeIssue : Type 0 where
  pub scope : ProbeIssueScope
  pub code : ProbeIssueCode
  pub message : String
  pub context_id : String
  pub hop_id : String

-- The test of the loop in AppendProbeIssue: the message plays no part.
pub same_identity : ProbeIssue → ProbeIssue → Bool
same_identity current issue =
    current.scope == issue.scope
    && current.code == issue.code
    && current.context_id == issue.context_id
    && current.hop_id == issue.hop_id

unfoldable pub append_probe_issue : List ProbeIssue → ProbeIssue → List ProbeIssue
append_probe_issue issues issue =
    if any (λ current. same_identity current issue) issues then issues else issues ++ issue ∷ []

unfoldable pub breaks_log_order : ProbeIssue → Bool
breaks_log_order issue = is_case issue.code (
    probe_issue_code_log_source_rotated ∷ probe_issue_code_log_window_truncated
    ∷ probe_issue_code_log_order_unconfirmed ∷ [])
