-- ===== src/Lib.antt =====
-- The kube-assist operator: its decision-making code and what is proved of it.
-- The operator checks workloads in a cluster, correlates the issues, asks an AI provider about
-- them and shows the result on a dashboard. Each file models one source file or a part of one.
--
-- - Prelude: Boolean tests, lists over native numbers, Go maps as association lists.
-- - Ai.Breaker: internal/ai/circuitbreaker.go. A method takes the clock's reading and returns the
--   new breaker with the transition that its callback hears of.
-- - Ai.Budget: internal/ai/budget.go, Budget. The two parallel slices are two lists.
-- - Ai.ChatBudget: the same file, ChatBudget. Loads and compare-and-swaps are the atomic actions
--   of a schedule, so that every interleaving of the calling threads is one.
-- - Ai.Cache: internal/ai/cache.go. A list element is a record with an identity, which stands for
--   its pointer, and the map leads from keys to identities. A request stands by its key.
-- - Ai.Manager: internal/ai/manager.go, Analyze, in its stages. What the provider replies is a
--   parameter of a call, as are the provider's name and the digest of a request; one call runs
--   at a time, with a reading of the clock for each of its steps.
-- - Ai.Agent: internal/ai/agent.go, in the messages and their compaction, Anthropic and Turn. The
--   provider's replies and the tools are parameters; the two budgets are an interface, which
--   Ai.Agent.Session fills with a Budget and its clock's readings, and Ai.Agent.Aggregate with the
--   chat budget of a single thread.
-- - History: internal/history/ringbuffer.go. The ring refines the list of what was added.
-- - Dashboard.Queue: internal/dashboard/enrichment_queue.go with its single worker. The order in
--   which Go ranges over a map is a parameter. The dispatch loop runs on fuel, the number of
--   pending requests, which is enough because each round takes one out.
-- - Checker.Registry: internal/checker/registry.go. What a checker's methods do is a field of its
--   record; the order in which the goroutines of RunAll answer is a parameter.
-- - Checker.Workload: internal/checker/workload/checker.go, in Pods, Suggestions, Diagnose and
--   Check. What the Kubernetes API lists is a record of functions.
-- - Checker.Plugin: internal/checker/plugin, with the CEL library as parameters.
-- - Checker.Convert: internal/checker/convert.go. Scope: internal/scope/resolver.go.
-- - Controller.Diagnose, Controller.Logs, Controller.EventLog, Controller.Troubleshoot:
--   internal/controller/troubleshootrequest_controller.go. A reconcile is a function of the stored
--   object and of a record of what it meets: the answers of the API server and the clock.
-- - Controller.TeamHealth, Controller.Notify: internal/controller/teamhealthrequest_controller.go in
--   the same way, and its notifications, with the URL parser and the secrets as parameters. A
--   merge patch writes what differs from its base.
-- - Controller.Plugins: internal/controller/checkplugin_controller.go, on the registry of
--   Checker.Registry and the stored object, with the library's finalizers as parameters.
-- - Api: the webhooks and types of api/v1alpha1. The errors of a validator are a list.
-- - Causal.Types: internal/causal/types.go, and Issue and CheckResult of
--   internal/checker/checker.go, with the helpers that the correlators share.
-- - Causal.Temporal, Causal.Graph, Causal.Rules: temporal.go, graph.go and rules.go of
--   internal/causal. A bucket map is an association list; its range order is a parameter.
-- - Causal.Dedup, Causal.Correlator: internal/causal/correlator.go, deduplicateGroups and
--   sortGroups, then Analyze with its counts.
--
-- The results of a correlation input are a list, in one order for all its loops. The texts of a
-- group for display (ID, title, root cause) are left out. A confidence is a constant between 0
-- and 1, and is counted in ten-thousandths. strings.ToLower and ToUpper are those of ASCII, which
-- is what resource kinds and issue types are written in.
--
-- Instants and durations are natural numbers of nanoseconds; counts of tokens and items stay far
-- below the width of an int, and are natural numbers. Mutexes make each method one step. Floats
-- are parameters. Network calls, logs and metrics are not modelled.
pub mod Prelude
pub mod Ai
pub mod History
pub mod Dashboard
pub mod Causal
pub mod Checker
pub mod Controller
pub mod Api
pub mod Scope
