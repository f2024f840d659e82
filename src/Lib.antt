-- ===== src/Lib.antt =====
-- GateLens explains the traffic of AI gateways. An agent in each cluster sends snapshots of its
-- topology to a central server, polls it for commands, and answers them with Envoy configurations
-- or with the records of a probe that it found in the gateways' access logs. The server merges the
-- topologies, links the clusters, and relates the records of a probe to attempts and to its final
-- response.
--
-- Common holds what the other modules share: Boolean tests, lists, Go strings as native texts, Go
-- ints as integers, association lists for Go maps, and results with errors. Samples and the modules
-- named Examples hold records and runs on concrete inputs.
--
-- Domain models internal/domain: the records of types.go, the closed sets of wire values with their
-- constants and IsValid (Domain/Values), ProbeIssue and AppendProbeIssue (Domain/Issues), and
-- ProbeAgentResult.Validate of probe_protocol.go (Domain/Validate). Domain/Validate/Accepted says
-- independently what Validate accepts.
--
-- Observed models internal/observed: attemptGroups of probe_attempts.go (Observed/Attempts, where
-- fill_buckets is the grouping, relate the branches on redirects and terminals, close_group the
-- local terminal) and EnrichProbe (Observed/Attempts/Enrich, where enrich_segment is a round of the
-- loop over the segments, and conclude its end). Observed/Values has validLogValue and
-- IsInternalRedirect of higress_log.go. Observed/Log models the rest of that file: the decoded
-- entry (HigressAccessLog), ParseHigressLineForProbe with its correlation and record
-- (Observed/Log/Line), and parseExtProcObservations (Observed/Log/ExtProc, where gather is the part
-- before the test of hasTelemetry and outcome_of the switch at the end).
--
-- Federation models internal/federation: the server's state of store.go (Federation/Store),
-- ReceiveSnapshot, resolveGateway and resolveProbeEntry (Federation/Snapshots), the commands of
-- executeProbeCommand, EnvoyConfig, NextAgentCommand and CompleteAgentCommand
-- (Federation/Commands), globalID and localID (Federation/Ids), owningGateway (Federation/Owner),
-- snapshotList, federated and Context (Federation/Merge), what becomes of an agent's answer to a
-- probe command (Federation/Probes: the end of executeProbeCommand, segmentFromAgent,
-- observeProbeGateway, GetProbe and failProbe; Federation/Probes/Creation: CreateProbe up to the
-- queue; Federation/Probes/Targets: discoverProbeGatewayTargets and targetForGateway;
-- Federation/Probes/Completion: completeFederatedProbe and the end of CreateProbe), link_rules.go
-- with its helpers of store.go (Federation/Links), and probe_association_rules.go with its helpers
-- (Federation/Associations: Rules has the four rules, Ranking the choice of the strongest
-- inference, Hosts the hosts and tokens).
--
-- Kube models the agent's side of a probe in internal/kube. Kube/Logs has the cache of
-- probe_logs.go and its method merge: scan_line is a round of the loop over the lines, keep_record
-- the end of that round. Kube/Logs/Window has canSettle and collectProbeWindow: run_round is a
-- round of the loop, which is given what it sees of the clock, of the contexts and of the reader,
-- and collect_probe_window runs the rounds that are given. The window ends the loop in the code;
-- rounds of which one starts behind that end are enough. Kube/Readers has observeProbeWindow:
-- read_logs is its closure read, which follows a file or reads the logs of the pods, and rounds_of
-- makes the rounds of what it returns; bytes are lists of numbers, and their texts, what the file
-- system and the cluster answer and what a round sees of the clock and the contexts are arguments.
-- Kube/Probe has ExecuteProbe, ObserveProbe and resolveProbeEntry of probe.go; they and Validate
-- meet in Kube/Probe/Answers.
--
-- The server is concurrent. A request runs register, enqueue and take_result, and forget when it
-- returns, which for CreateProbe is after the whole federated observation; an agent runs
-- next_agent_command, and CompleteAgentCommand as find_pending and send_result, with
-- complete_agent_command for both at once. Any other step may come between these, also the end of
-- the request between the look-up and the send, which then stores nothing. Each of them is one
-- critical section or one channel operation (the code around an operation that touches no shared
-- state counted with it), except that a poll makes several rounds at once; a poll of one round is a
-- step too, so that other calls may come between rounds, and a poll that waits for a command is a
-- poll without a command followed by another. A channel of one result is an optional result, a
-- queue channel the list of its commands. A cancelled request, or one whose wait ends, forgets its
-- command without taking a result, also if one is there; a cancelled call of an agent changes
-- nothing.
--
-- Clocks are arguments. Arguments stand also for what the Go libraries do: reading and printing
-- times (parse_time, format_time), wording an error (message), the digest of the snapshots' keys
-- (digest), and normalizeTarget, which rests on packages net and url. LogLibrary has what the log
-- parser uses of encoding/json, strconv and strings, HostLibrary what the rules use of packages
-- net, url, strings and fmt, UrlLibrary the functions of net/url, and Collector the identity of
-- files and the digest of a line. An offset in a file is a natural number below 2^63. Ints are only
-- stored and compared. A poll's argument `rounds` bounds its loop: the wait or the caller ends the
-- loop in the code, and the length of the queue is enough for any poll that is not ended. The
-- search for an owner runs 129 rounds, which is enough, since the code stops once it has visited
-- more than 128 nodes. The search for declared targets runs 4097 rounds, which is enough, since the
-- code stops once it has visited more than 4096 nodes and takes each visited node once. The digits
-- of a number n are printed with n + 1 rounds, which is enough, as n has at most that many digits.
--
-- Not modelled: a text that is not valid UTF-8, the wording of errors, nil slices as opposed to
-- empty ones, and the order in which Go visits a map. The Envoy dump, the Kubernetes stores, the
-- agent's loop, the HTTP layer, the demo data and the page are not modelled.
pub mod Common
pub mod Domain
pub mod Samples
pub mod Observed
pub mod Federation
pub mod Kube
