-- ===== src/Controller/Diagnose.antt =====
-- internal/controller/troubleshootrequest_controller.go: `diagnosePodsDetailed` and the summary.
use kube_assist_operator.Prelude.{
  ℕ, ◌+◌, not, ◌&&◌, Option, none, some, List, [], ◌∷◌, ◌++◌, String, string_eq, ◌==◌, eqb, ltb,
  if◌then◌else◌, length,
}
use kube_assist_operator.Prelude.Texts.{concat}
use kube_assist_operator.Prelude.Numbers.{show}
use kube_assist_operator.Checker.Workload.Pods.{
  ContainerStateWaiting, ContainerStateTerminated, ContainerStatus, PodCondition, Container, Pod,
}
use kube_assist_operator.Checker.Workload.Suggestions.{
  get_suggestion_for_waiting_reason, get_suggestion_for_terminated_reason,
}
use kube_assist_operator.Checker.Workload.Diagnose.{when}

pub record DiagnosticIssue : Type 0 where
  pub type : String
  pub severity : String
  pub message : String
  pub suggestion : String

abbrev pub high_restart_threshold : ℕ
high_restart_threshold = 3

abbrev pub diagnosed : String → String → String → String → DiagnosticIssue
diagnosed type severity message suggestion = record {
  type = type;
  severity = severity;
  message = message;
  suggestion = suggestion;
}

unfoldable pub not_ready :
    String
    → String
    → Option ContainerStateWaiting
    → Option ContainerStateTerminated
    → DiagnosticIssue
unfolding concat show get_suggestion_for_waiting_reason get_suggestion_for_terminated_reason
not_ready pod name (some w) t =
    diagnosed "ContainerNotReady" "Critical"
      (concat ("Container " ∷ name ∷ " is waiting: " ∷ w.reason ∷ " - " ∷ w.message ∷ []))
      (get_suggestion_for_waiting_reason w.reason)
not_ready pod name none (some t) =
    diagnosed "ContainerNotReady" "Critical"
      (concat (
        "Container "
        ∷ name
        ∷ " terminated: "
        ∷ t.reason
        ∷ " (exit code "
        ∷ show t.exit_code
        ∷ ")"
        ∷ []))
      (get_suggestion_for_terminated_reason t.reason t.exit_code)
not_ready pod name none none =
    diagnosed "ContainerNotReady" "Critical"
      (concat ("Container " ∷ name ∷ " in pod " ∷ pod ∷ " is not ready" ∷ [])) ""

unfoldable pub detailed_statuses : Pod → List ContainerStatus → List DiagnosticIssue
unfolding not_ready concat show when
detailed_statuses pod [] = []
detailed_statuses pod (cs ∷ css) =
    when (not cs.ready) (not_ready pod.name cs.name cs.waiting cs.terminated)
    ++ (when (ltb high_restart_threshold cs.restart_count) (
          diagnosed "HighRestartCount" "Warning"
            (concat
              ("Container " ∷ cs.name ∷ " has restarted " ∷ show cs.restart_count ∷ " times" ∷ []))
            (concat (
              "Check previous logs: kubectl logs " ∷ pod.name ∷ " -c " ∷ cs.name ∷ " --previous -n "
              ∷ pod.namespace
              ∷ ". Common causes: OOM kills, liveness probe failures, or application crashes."
              ∷ [])))
        ++ detailed_statuses pod css)

unfoldable pub detailed_condition : Pod → PodCondition → List DiagnosticIssue
unfolding concat when
detailed_condition pod cond =
    if cond.type == "PodScheduled"
    then diagnosed "SchedulingFailed" "Critical"
        (concat ("Pod " ∷ pod.name ∷ " failed to schedule: " ∷ cond.message ∷ []))
        (concat (
          "Check node capacity: kubectl describe nodes | grep -A5 'Allocated resources'. Verify taints/tolerations: kubectl get nodes -o custom-columns=NAME:.metadata.name,TAINTS:.spec.taints. Check pod affinity: kubectl get pod "
          ∷ pod.name ∷ " -n " ∷ pod.namespace ∷ " -o jsonpath='{.spec.affinity}'." ∷ []))
      ∷ []
    else when (cond.type == "Ready" && not (cond.reason == "ContainersNotReady")) (
        diagnosed "PodNotReady" "Warning"
          (concat ("Pod " ∷ pod.name ∷ " not ready: " ∷ cond.message ∷ [])) "")

unfoldable pub detailed_conditions : Pod → List PodCondition → List DiagnosticIssue
unfolding detailed_condition
detailed_conditions pod [] = []
detailed_conditions pod (cond ∷ conds) =
    (if cond.status == "False" then detailed_condition pod cond else [])
    ++ detailed_conditions pod conds

unfoldable pub detailed_container : Pod → Container → List DiagnosticIssue
unfolding concat when
detailed_container pod c =
    when (eqb c.memory_limit 0) (
      diagnosed "NoMemoryLimit" "Warning"
        (concat ("Container " ∷ c.name ∷ " has no memory limit set" ∷ []))
        (concat (
          "Set a memory limit to prevent OOM issues and ensure fair resource sharing. Check current usage: kubectl top pod "
          ∷ pod.name ∷ " -n " ∷ pod.namespace
          ∷ ". See Kubernetes docs on resource management for containers." ∷ [])))
    ++ (when (eqb c.cpu_limit 0) (
          diagnosed "NoCPULimit" "Info"
            (concat ("Container " ∷ c.name ∷ " has no CPU limit set" ∷ []))
            "Consider setting CPU limits for predictable performance. Note: some teams intentionally omit CPU limits to avoid throttling.")
        ++ (when (eqb c.memory_request 0 && eqb c.cpu_request 0) (
              diagnosed "NoResourceRequests" "Warning"
                (concat ("Container " ∷ c.name ∷ " has no resource requests set" ∷ []))
                "Set resource requests so the scheduler can place pods on nodes with sufficient capacity. Without requests, pods get BestEffort QoS and are evicted first under memory pressure.")
            ++ (when (not c.liveness_probe) (
                  diagnosed "NoLivenessProbe" "Info"
                    (concat ("Container " ∷ c.name ∷ " has no liveness probe configured" ∷ []))
                    "Add a liveness probe to enable automatic container restart when the application becomes unresponsive. See Kubernetes docs on configure liveness, readiness and startup probes.")
                ++ (when (not c.readiness_probe) (
                    diagnosed "NoReadinessProbe" "Info"
                      (concat ("Container " ∷ c.name ∷ " has no readiness probe configured" ∷ []))
                      "Add a readiness probe to prevent traffic from being sent to pods that are not ready. This is especially important for services behind a Service/Ingress.")))))

unfoldable pub detailed_containers : Pod → List Container → List DiagnosticIssue
unfolding detailed_container
detailed_containers pod [] = []
detailed_containers pod (c ∷ cs) = detailed_container pod c ++ detailed_containers pod cs

unfoldable pub diagnose_pods_detailed : List Pod → List DiagnosticIssue
unfolding detailed_statuses detailed_conditions detailed_containers concat when
diagnose_pods_detailed [] = []
diagnose_pods_detailed (pod ∷ pods) =
    when (not (pod.phase == "Running")) (
      diagnosed "PodNotRunning" "Critical"
        (concat ("Pod " ∷ pod.name ∷ " is in " ∷ pod.phase ∷ " phase" ∷ [])) "")
    ++ (detailed_statuses pod pod.container_statuses
        ++ (detailed_conditions pod pod.conditions
            ++ (detailed_containers pod pod.containers ++ diagnose_pods_detailed pods)))

-- The number of issues of a severity.
unfoldable pub count_of : String → List DiagnosticIssue → ℕ
count_of severity [] = 0
count_of severity (i ∷ is) = (if i.severity == severity then 1 else 0) + count_of severity is

unfoldable pub generate_summary : List Pod → List DiagnosticIssue → String
unfolding count_of concat show
generate_summary pods issues =
    let critical = count_of "Critical" issues in
    let warning = count_of "Warning" issues in
    if eqb (length issues) 0
    then concat ("All " ∷ show (length pods) ∷ " pod(s) healthy - no issues found" ∷ [])
    else (if ltb 0 critical
        then concat (show critical ∷ " critical, " ∷ show warning ∷ " warning issue(s) found" ∷ [])
        else concat (show warning ∷ " warning issue(s) found" ∷ []))
