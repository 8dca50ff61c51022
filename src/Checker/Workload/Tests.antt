-- ===== src/Checker/Workload/Tests.antt =====
-- A namespace with one deployment, of which a pod crashes.
use kube_assist_operator.Prelude.{
  ◌≡◌, refl, Bool, true, false, Option, none, some, List, [], ◌∷◌, map, String, string_eq, ◌==◌,
  lookup, insert, All,
}
use kube_assist_operator.Prelude.Numbers.{pos}
use kube_assist_operator.Causal.Types.{Issue}
use kube_assist_operator.Checker.Workload.Pods.{Pod}
use kube_assist_operator.Checker.Workload.Diagnose.{when, diagnose_pods}
use kube_assist_operator.Checker.Workload.Check.{ConfigValue, int_value, DataSource, check}
use kube_assist_operator.Checker.Workload.Tags.{Untagged, check-Untagged}

abbrev crashing : Pod
crashing = record {
  name = "api-1";
  namespace = "shop";
  labels = ("app", "api") ∷ [];
  phase = "Running";
  container_statuses =
      record {
        name = "main";
        ready = false;
        restart_count = 12;
        waiting = some (record { reason = "CrashLoopBackOff"; message = "back-off" });
        terminated = none;
      }
      ∷ [];
  conditions = [];
  containers =
      record {
        name = "main";
        memory_limit = 0;
        cpu_limit = 1;
        memory_request = 1;
        cpu_request = 1;
        liveness_probe = true;
        readiness_probe = true;
      }
      ∷ [];
}

abbrev cluster : DataSource String
cluster = record {
  list_pods = λ ns. some (crashing ∷ []);
  list_deployments = λ ns. some (record { name = "api"; selector = "all" } ∷ []);
  list_stateful_sets = λ ns. none;
  list_daemon_sets = λ ns. some (record { name = "agent"; selector = "none" } ∷ []);
}

abbrev select : String → Option (List (String × String) → Bool)
select s = some (λ labels. s == "all")

abbrev config : List (String × ConfigValue)
config = ("restartThreshold", int_value (pos 5)) ∷ []

three_issues :
    let result = check select cluster config ("shop" ∷ []) in
    map (λ i. Issue.type i) result.issues
    ≡ "ContainerNotReady" ∷ "HighRestartCount" ∷ "NoMemoryLimit" ∷ []
unfolding check diagnose_pods when insert lookup
three_issues = refl

check-Untagged_example :
    let result = check select cluster config ("shop" ∷ []) in All Untagged result.issues
check-Untagged_example = check-Untagged select cluster config ("shop" ∷ [])
