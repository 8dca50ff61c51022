-- ===== src/Checker/Workload/Suggestions.antt =====
-- internal/checker/workload/checker.go: the suggestions for a container's state.
use kube_assist_operator.Prelude.{
  ℕ, none, some, List, [], ◌∷◌, String, string_eq, ◌==◌, eqb, if◌then◌else◌, lookup,
}
use kube_assist_operator.Prelude.Texts.{concat}
use kube_assist_operator.Prelude.Numbers.{show}

abbrev pub waiting_suggestions : List (String × String)
waiting_suggestions =
    (
      "ImagePullBackOff",
      "The container image cannot be pulled. Common causes: typo in image name/tag, missing imagePullSecrets, or private registry without credentials. Investigate with: kubectl describe pod <pod> | grep -A5 'Events' and kubectl get events --field-selector reason=Failed",
    )
    ∷ (
      "ErrImagePull",
      "Image pull failed. Verify the image exists: docker manifest inspect <image>:<tag>. For private registries, ensure imagePullSecrets are configured: kubectl get pod <pod> -o jsonpath='{.spec.imagePullSecrets}'. See Kubernetes docs on private registries.",
    )
    ∷ (
      "CrashLoopBackOff",
      "The container is repeatedly crashing. Check recent logs with: kubectl logs <pod> --previous. Common causes: missing config/secrets, incorrect entrypoint, or application errors. If OOM-related, check: kubectl describe pod <pod> | grep -i oom",
    )
    ∷ (
      "CreateContainerConfigError",
      "Container configuration is invalid. Usually a missing ConfigMap or Secret. Check which references are broken: kubectl describe pod <pod> | grep -A3 'Warning'. Verify referenced ConfigMaps/Secrets exist: kubectl get cm,secret -n <namespace>",
    )
    ∷ (
      "ContainerCreating",
      "Container is being created. If stuck for more than a few minutes, check events: kubectl describe pod <pod>. Common causes: slow image pull, volume mount issues, or node resource pressure.",
    )
    ∷ (
      "PodInitializing",
      "Init containers are running. If stuck, check init container logs: kubectl logs <pod> -c <init-container-name>. List init containers: kubectl get pod <pod> -o jsonpath='{.spec.initContainers[*].name}'",
    )
    ∷ []

unfoldable pub get_suggestion_for_waiting_reason : String → String
unfolding lookup
get_suggestion_for_waiting_reason reason = elim (lookup reason waiting_suggestions) [
  | some s ↦ s
  | none ↦ "Check pod events for more details: kubectl describe pod <pod>"
]

unfoldable pub get_suggestion_for_terminated_reason : String → ℕ → String
unfolding concat show
get_suggestion_for_terminated_reason reason exit_code =
    if reason == "OOMKilled"
    then "Container exceeded its memory limit and was OOM-killed. Check current limits: kubectl describe pod <pod> | grep -A2 'Limits'. Increase the memory limit in the pod spec, or profile the application to reduce memory usage. See Kubernetes docs on managing resources for containers."
    else (if eqb exit_code 137
        then "Container was killed with SIGKILL (exit code 137). This typically indicates OOM kill or an external signal. Check: kubectl describe pod <pod> | grep -i oom, and kubectl top pod <pod> to see current memory usage. Also check node memory pressure: kubectl describe node <node> | grep -A5 'Conditions'."
        else (if eqb exit_code 143
            then "Container received SIGTERM (exit code 143). This is normal during rolling updates, scale-downs, or pod evictions. If unexpected, check: kubectl get events --field-selector reason=Killing -n <namespace>."
            else (if eqb exit_code 1
                then "Application exited with error code 1. Check logs: kubectl logs <pod> --previous. Common causes: unhandled exceptions, missing configuration, or failed startup checks."
                else (if eqb exit_code 126
                    then "Command cannot be executed (exit code 126). The entrypoint or command exists but is not executable. Check file permissions in the container image and verify the binary format matches the container architecture (e.g., amd64 vs arm64)."
                    else (if eqb exit_code 127
                        then "Command not found (exit code 127). The entrypoint or command does not exist in the container. Verify the image contains the expected binary: kubectl exec <pod> -- ls /path/to/binary. Check the container's command and args fields in the pod spec."
                        else concat (
                            "Container exited with code "
                            ∷ show exit_code
                            ∷ ". Check application logs: kubectl logs <pod> --previous."
                            ∷ []))))))
