-- ===== src/Federation/Probes/Creation/Bounds.antt =====
-- What a command for a probe may ask of an agent.
use gate_lens.Common.{
  ℕ, ◌+◌, ◌*◌, ◌≤◌, String, ℤ, pos, negsuc, true, false, some, ◌≡◌, refl, ap, ◌∙◌, subst, ltb,
  int_ltb, int_add, byte_length, trim_space, Bool-cases, Option-cases, Result-cases, inl, inr,
  arith, ok, if◌then◌else◌,
}
use gate_lens.Domain.Values.{agent_command_probe_http, is_valid_probe_http_method}
use gate_lens.Domain.Topology.{ProbeEntry}
use gate_lens.Domain.Probe.{ProbeRequest, ProbeExecution}
use gate_lens.Domain.Command.{AgentCommand, ProbeCommand}
use gate_lens.Federation.Store.{Store}
use gate_lens.Federation.Snapshots.{resolve_probe_entry}
use gate_lens.Kube.Probe.{Url, UrlLibrary, has_line_break}
use gate_lens.Federation.Probes.Creation.{
  Creation, method_of, timeout_of, command_of, check_request, check_headers, start_probe,
  create_probe, resolved,
}

-- The bounds of a command for a probe.
pub record IsBounded (command : AgentCommand) : Type 0 where
  pub probe : ProbeCommand
  pub payload : command.probe ≡ some probe
  pub kind : command.kind ≡ agent_command_probe_http
  pub gateway : command.gateway_id ≡ probe.gateway_id
  pub method : is_valid_probe_http_method probe.method ≡ true
  pub body : byte_length probe.body ≤ 64 * 1024
  pub key : byte_length probe.api_key ≤ 8 * 1024
  pub plain_key : has_line_break probe.api_key ≡ false
  pub plain_host : has_line_break probe.host ≡ false
  pub seconds : ℕ
  pub timeout : command.execution_timeout_seconds ≡ pos seconds
  pub at_least : 6 ≤ seconds
  pub at_most : seconds ≤ 35

clamped :
    (t : ℤ)
    → let used = if int_ltb (pos 0) t then t else pos 15 in
      int_ltb (pos 30) used ≡ false → (n : ℕ) × (used ≡ pos n) × (1 ≤ n) × (n ≤ 30)
clamped (negsuc n) e = (15, refl, omega arith, omega arith)
clamped (pos n) e = elim (Bool-cases (ltb 0 n)) [
  | inl f ↦ (n, ground arith, ground arith, ground arith)
  | inr f ↦ (15, ground arith, omega arith, omega arith)
]

-- The timeout is between 1 and 30 seconds, and five more for the agent's command.
timeout_of-cases :
    (request : ProbeRequest)
    → int_ltb (pos 30) (timeout_of request) ≡ false
    → (n : ℕ) × (timeout_of request ≡ pos n) × (1 ≤ n) × (n ≤ 30)
unfolding timeout_of
timeout_of-cases request e = clamped request.timeout_seconds e

add_five : (n : ℕ) → n ≤ 30 → int_add (pos n) (pos 5) ≡ pos (n + 5)
unfolding int_add
add_five n h = ground arith

check_request-ok :
    (creation : Creation) (request : ProbeRequest)
    → check_request creation request ≡ ok tt
    → (is_valid_probe_http_method (method_of creation.to_upper request) ≡ true)
      × (byte_length request.body ≤ 64 * 1024)
unfolding check_request
check_request-ok creation request e = ground arith

check_headers-ok :
    (request : ProbeRequest)
    → check_headers request ≡ ok tt
    → (has_line_break request.host ≡ false)
      × (byte_length request.api_key ≤ 8 * 1024)
      × (has_line_break request.api_key ≡ false)
      × (int_ltb (pos 30) (timeout_of request) ≡ false)
unfolding check_headers
check_headers-ok request e = ground arith

command_of-IsBounded :
    (creation : Creation) (request : ProbeRequest) (cluster gateway : String) (entry : ProbeEntry)
    (probe_id trace_id command_id : String)
    → check_request creation request ≡ ok tt
    → check_headers request ≡ ok tt
    → IsBounded (command_of creation request cluster gateway entry probe_id trace_id command_id)
unfolding command_of
command_of-IsBounded creation request cluster gateway entry probe_id trace_id command_id e f =
    let (method, body) = check_request-ok creation request e in
    let (host, key, plain, short) = check_headers-ok request f in
    let (n, same, least, most) = timeout_of-cases request short in
    record {
      probe = _;
      payload = refl;
      kind = refl;
      gateway = refl;
      method = method;
      body = body;
      key = key;
      plain_key = plain;
      plain_host = host;
      seconds = n + 5;
      timeout = ap (λ (t : ℤ). int_add t (pos 5)) same ∙ add_five n most;
      at_least = omega (arith, least);
      at_most = omega (arith, most);
    }

-- The command is made of the resolved entry and of three identities.
abbrev IsMade : Creation → ProbeRequest → AgentCommand → String × String × ProbeEntry → Type 0
IsMade creation request command (cluster, gateway, entry) =
    (probe_id : String) × (trace_id : String) × (command_id : String) × (command_of creation request
        cluster gateway entry probe_id trace_id command_id
      ≡ command)

made_command :
    (creation : Creation) (request : ProbeRequest) (command : AgentCommand)
    (entry : String × String × ProbeEntry)
    → check_request creation request ≡ ok tt
    → check_headers request ≡ ok tt
    → IsMade creation request command entry
    → IsBounded command
made_command creation request command (cluster, gateway, entry) g k
      (probe_id, trace_id, command_id, same) =
    subst IsBounded same
      (command_of-IsBounded creation request cluster gateway entry probe_id trace_id command_id g k)

start_probe-IsMade :
    (urls : UrlLibrary) (creation : Creation) (request : ProbeRequest) (url : Url)
    (cluster gateway : String) (entry : ProbeEntry) (execution : ProbeExecution)
    (command : AgentCommand)
    → start_probe urls creation request url cluster gateway entry ≡ ok (execution, command)
    → IsMade creation request command (cluster, gateway, entry)
unfolding start_probe
start_probe-IsMade urls creation request url cluster gateway entry execution command e =
    elim (Option-cases creation.probe_id) [
      | inl f ↦ absurd (ground arith)
      | inr (probe_id, f) ↦ elim (Option-cases creation.trace_id) [
        | inl g ↦ absurd (ground arith)
        | inr (trace_id, g) ↦ elim (Option-cases creation.command_id) [
          | inl h ↦ absurd (ground arith)
          | inr (command_id, h) ↦ (probe_id, trace_id, command_id, ground arith)
        ]
      ]
    ]

-- A request that is accepted yields a command for the agent within these bounds: a valid method, a
-- body of 64 KiB and a key of 8 KiB at most, no line break in the key or the host, and a timeout of
-- 6 to 35 seconds.
pub create_probe-IsBounded :
    (s : Store) (urls : UrlLibrary) (creation : Creation) (request : ProbeRequest)
    (execution : ProbeExecution) (command : AgentCommand)
    → create_probe s urls creation request ≡ ok (execution, command)
    → IsBounded command
unfolding create_probe
create_probe-IsBounded s urls creation request execution command e =
    let resolution =
      resolved (resolve_probe_entry s request.source_cluster request.gateway_id request.entry_id) in
    elim (Result-cases resolution) [
      | inr (_, f) ↦ absurd (ground arith)
      | inl (entry, f) ↦ elim (Result-cases (check_request creation request)) [
        | inr (_, g) ↦ absurd (ground arith)
        | inl (_, g) ↦ elim (Option-cases (urls.parse_request_uri (trim_space request.path))) [
          | inl h ↦ absurd (ground arith)
          | inr (url, h) ↦ elim (Result-cases (check_headers request)) [
            | inr (_, k) ↦ absurd (ground arith)
            | inl (_, k) ↦ made_command creation request command entry g k (
                start_probe-IsMade urls creation request url (entry.0) (entry.1) (entry.2) execution
                  command (ground arith))
          ]
        ]
      ]
    ]
