-- ===== src/Checker/Workload/Diagnose.antt =====
-- internal/checker/workload/checker.go: the diagnosis of a pod and of its containers.
use kube_assist_operator.Prelude.{
  ℕ, min, Bool, true, false, not, ◌&&◌, Option, none, some, List, [], ◌∷◌, ◌++◌, String, string_eq,
  ◌==◌, eqb, ltb, if◌then◌else◌, insert,
}
use kube_assist_operator.Prelude.Texts.{concat}
use kube_assist_operator.Prelude.Numbers.{ℤ, is_negative, magnitude, show, show_int}
use kube_assist_operator.Causal.Types.{Issue, severity_critical, severity_warning, severity_info}
use kube_assist_operator.Checker.Workload.Pods.{
  ContainerStateWaiting, ContainerStateTerminated, ContainerStatus, PodCondition, Container, Pod,
}
use kube_assist_operator.Checker.Workload.Suggestions.{
  get_suggestion_for_waiting_reason, get_suggestion_for_terminated_reason,
}

unfoldable pub when {ℓ} : {A : Type ℓ} → Bool → A → List A
when true a = a ∷ []
when false a = []

-- `math.MaxInt32`
abbrev pub max_int32 : ℕ
max_int32 = 2147483647

abbrev pub container_metadata : String → String → List (String × String)
container_metadata pod container = ("pod", pod) ∷ ("container", container) ∷ []

module _ (namespace resource_ref : String) where
  -- An issue of the resource that the pods belong to.
  abbrev pub issue_of : String → String → String → String → List (String × String) → Issue
  issue_of type severity message suggestion metadata = record {
    type = type;
    severity = severity;
    resource = resource_ref;
    namespace = namespace;
    message = message;
    suggestion = suggestion;
    metadata = metadata;
  }

  unfoldable pub check_container_best_practices : Container → String → List Issue
  unfolding concat
  check_container_best_practices container pod_name =
      let metadata = container_metadata pod_name container.name in
      when (eqb container.memory_limit 0) (
        issue_of "NoMemoryLimit" severity_warning
          (concat ("Container " ∷ container.name ∷ " has no memory limit set" ∷ []))
          (concat (
            "Set a memory limit to prevent OOM issues and ensure fair resource sharing. Without a limit, the container can consume all available node memory. Check current usage: kubectl top pod <pod> -n "
            ∷ namespace ∷ ". See Kubernetes docs on resource management for containers." ∷ []))
          metadata)
      ++ (when (eqb container.cpu_limit 0) (
            issue_of "NoCPULimit" severity_info
              (concat ("Container " ∷ container.name ∷ " has no CPU limit set" ∷ []))
              (concat (
                "Consider setting CPU limits for predictable performance. Note: some teams intentionally omit CPU limits to avoid throttling. Check current usage: kubectl top pod <pod> -n "
                ∷ namespace ∷ "." ∷ []))
              metadata)
          ++ (when (eqb container.memory_request 0 && eqb container.cpu_request 0) (
                issue_of "NoResourceRequests" severity_warning
                  (concat ("Container " ∷ container.name ∷ " has no resource requests set" ∷ []))
                  "Set resource requests so the scheduler can place pods on nodes with sufficient capacity. Without requests, pods get BestEffort QoS and are evicted first under memory pressure. See Kubernetes docs on pod QoS classes."
                  metadata)
              ++ (when (not container.liveness_probe) (
                    issue_of "NoLivenessProbe" severity_info
                      (concat
                        ("Container " ∷ container.name ∷ " has no liveness probe configured" ∷ []))
                      "Add a liveness probe to enable automatic container restart when the application becomes unresponsive. Use httpGet for HTTP services or exec for CLI-based checks. See Kubernetes docs on configure liveness, readiness and startup probes."
                      metadata)
                  ++ (when (not container.readiness_probe) (
                      issue_of "NoReadinessProbe" severity_info
                        (concat (
                          "Container " ∷ container.name ∷ " has no readiness probe configured"
                          ∷ []))
                        "Add a readiness probe to prevent traffic from being sent to pods that are not ready to serve requests. This is especially important for services behind a Service/Ingress. See Kubernetes docs on configure liveness, readiness and startup probes."
                        metadata)))))

  -- A container's state, where it is not ready: the message, the suggestion and the metadata.
  unfoldable pub not_ready_issue :
      String → String → Option ContainerStateWaiting → Option ContainerStateTerminated → Issue
  unfolding concat show insert get_suggestion_for_waiting_reason
      get_suggestion_for_terminated_reason
  not_ready_issue pod name (some w) t =
      issue_of "ContainerNotReady" severity_critical
        (concat (
          "Container "
          ∷ name
          ∷ " is waiting: "
          ∷ w.reason
          ∷ (if w.message == "" then "" else concat (" - " ∷ w.message ∷ []))
          ∷ []))
        (get_suggestion_for_waiting_reason w.reason)
        (insert "reason" w.reason (container_metadata pod name))
  not_ready_issue pod name none (some t) =
      issue_of "ContainerNotReady" severity_critical
        (concat (
          "Container "
          ∷ name
          ∷ " terminated: "
          ∷ t.reason
          ∷ " (exit code "
          ∷ show t.exit_code
          ∷ ")"
          ∷ []))
        (get_suggestion_for_terminated_reason t.reason t.exit_code)
        (insert "exitCode" (show t.exit_code)
          (insert "reason" t.reason (container_metadata pod name)))
  not_ready_issue pod name none none =
      issue_of "ContainerNotReady" severity_critical
        (concat ("Container " ∷ name ∷ " in pod " ∷ pod ∷ " is not ready" ∷ [])) ""
        (container_metadata pod name)

  -- The loop over the container statuses.
  unfoldable pub status_issues : String → ℤ → List ContainerStatus → List Issue
  unfolding not_ready_issue concat show show_int
  status_issues pod threshold [] = []
  status_issues pod threshold (cs ∷ css) =
      when (not cs.ready) (not_ready_issue pod cs.name cs.waiting cs.terminated)
      ++ (when
            (not (is_negative threshold)
              && ltb (min (magnitude threshold) max_int32) cs.restart_count)
            (issue_of "HighRestartCount" severity_warning
              (concat (
                "Container "
                ∷ cs.name
                ∷ " has restarted "
                ∷ show cs.restart_count
                ∷ " times (threshold: "
                ∷ show_int threshold
                ∷ ")"
                ∷ []))
              (concat (
                "Check previous logs: kubectl logs " ∷ pod ∷ " -c " ∷ cs.name ∷ " --previous -n "
                ∷ namespace
                ∷ ". Common causes: OOM kills, liveness probe failures, or application crashes. Check exit reason: kubectl describe pod "
                ∷ pod ∷ " -n " ∷ namespace ∷ " | grep -A5 'Last State'." ∷ []))
              (insert "restartCount" (show cs.restart_count) (container_metadata pod cs.name)))
          ++ status_issues pod threshold css)

  -- The `switch` on a condition that is false.
  unfoldable pub condition_issue : String → PodCondition → List Issue
  unfolding concat
  condition_issue pod cond =
      if cond.type == "PodScheduled"
      then issue_of "SchedulingFailed" severity_critical
          (concat ("Pod " ∷ pod ∷ " failed to schedule: " ∷ cond.message ∷ []))
          (concat (
            "Check node capacity: kubectl describe nodes | grep -A5 'Allocated resources'. Verify taints/tolerations: kubectl get nodes -o custom-columns=NAME:.metadata.name,TAINTS:.spec.taints. Check pod affinity rules: kubectl get pod "
            ∷ pod ∷ " -n " ∷ namespace
            ∷ " -o jsonpath='{.spec.affinity}'. See Kubernetes docs on scheduling and eviction."
            ∷ []))
          (("pod", pod) ∷ ("reason", cond.reason) ∷ [])
        ∷ []
      else when (cond.type == "Ready" && not (cond.reason == "ContainersNotReady")) (
          issue_of "PodNotReady" severity_warning
            (concat ("Pod " ∷ pod ∷ " not ready: " ∷ cond.message ∷ [])) ""
            (("pod", pod) ∷ ("reason", cond.reason) ∷ []))

  unfoldable pub condition_issues : String → List PodCondition → List Issue
  unfolding condition_issue
  condition_issues pod [] = []
  condition_issues pod (cond ∷ conds) =
      (if cond.status == "False" then condition_issue pod cond else [])
      ++ condition_issues pod conds

  unfoldable pub container_issues : String → List Container → List Issue
  unfolding check_container_best_practices
  container_issues pod [] = []
  container_issues pod (c ∷ cs) = check_container_best_practices c pod ++ container_issues pod cs

  unfoldable pub diagnose_pod : Pod → ℤ → List Issue
  unfolding status_issues condition_issues container_issues concat
  diagnose_pod pod threshold =
      when (not (pod.phase == "Running") && not (pod.phase == "Succeeded")) (
        issue_of "PodNotRunning" severity_critical
          (concat ("Pod " ∷ pod.name ∷ " is in " ∷ pod.phase ∷ " phase" ∷ [])) ""
          (("pod", pod.name) ∷ ("phase", pod.phase) ∷ []))
      ++ (status_issues pod.name threshold pod.container_statuses
          ++ (condition_issues pod.name pod.conditions ++ container_issues pod.name pod.containers))

  unfoldable pub diagnose_pods : List Pod → ℤ → List Issue
  unfolding diagnose_pod
  diagnose_pods [] threshold = []
  diagnose_pods (pod ∷ pods) threshold = diagnose_pod pod threshold ++ diagnose_pods pods threshold
