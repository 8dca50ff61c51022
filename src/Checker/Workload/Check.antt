-- ===== src/Checker/Workload/Check.antt =====
-- internal/checker/workload/checker.go: `Check` over the namespaces. What the data source lists is
-- a parameter, where `none` is an error, and so is the meaning of a label selector.
use kube_assist_operator.Prelude.{
  ℕ, ◌+◌, Bool, Option, none, some, List, [], ◌∷◌, ◌++◌, String, string_eq, eqb, if◌then◌else◌,
  length, keep, lookup, insert,
}
use kube_assist_operator.Prelude.Texts.{concat}
use kube_assist_operator.Prelude.Numbers.{ℤ, pos}
use kube_assist_operator.Causal.Types.{Issue, CheckResult}
use kube_assist_operator.Checker.Workload.Pods.{Pod}
use kube_assist_operator.Checker.Workload.Diagnose.{diagnose_pods}

abbrev pub checker_name : String
checker_name = "workloads"

abbrev pub default_restart_threshold : ℤ
default_restart_threshold = pos 3

-- A value of the checker's configuration: an int, or something else.
pub data ConfigValue : Type 0 where
  int_value : ℤ → ConfigValue
  other_value : ConfigValue

-- A nil map and an empty one are read alike.
unfoldable pub get_restart_threshold : List (String × ConfigValue) → ℤ
unfolding lookup
get_restart_threshold config = elim (lookup "restartThreshold" config) [
  | none ↦ default_restart_threshold
  | some v ↦ elim v [ int_value threshold ↦ threshold | other_value ↦ default_restart_threshold ]
]

-- A deployment, a stateful set or a daemon set.
pub record Workload (S : Type 0) : Type 0 where
  pub name : String
  pub selector : S

pub record DataSource (S : Type 0) : Type 0 where
  pub list_pods : String → Option (List Pod)
  pub list_deployments : String → Option (List (Workload S))
  pub list_stateful_sets : String → Option (List (Workload S))
  pub list_daemon_sets : String → Option (List (Workload S))

-- What the loops add to the result.
pub record Progress : Type 0 where
  pub healthy : ℕ
  pub issues : List Issue

abbrev pub PodCache : Type 0
PodCache = List (String × List Pod)

abbrev pub or_no_pods : Option (List Pod) → List Pod
or_no_pods none = []
or_no_pods (some pods) = pods

module _ {S : Type 0} (as_selector : S → Option (List (String × String) → Bool)) where
  unfoldable pub filter_pods_for_workload : List Pod → S → Option (List Pod)
  filter_pods_for_workload pods selector = elim (as_selector selector) [
    | none ↦ none
    | some matches ↦ some (keep (λ pod. matches pod.labels) pods)
  ]

  -- The body of the three loops; `kind` is the prefix of the resource.
  unfoldable pub check_workload : String → ℤ → List Pod → String → Workload S → Progress → Progress
  unfolding filter_pods_for_workload diagnose_pods concat
  check_workload kind threshold pods ns w out = elim (filter_pods_for_workload pods w.selector) [
    | none ↦ out
    | some matched ↦
        let found = diagnose_pods ns (concat (kind ∷ "/" ∷ w.name ∷ [])) matched threshold in
        if eqb (length found) 0
        then record out { healthy = out.healthy + 1 }
        else record out { issues = out.issues ++ found }
  ]

  unfoldable pub check_workloads :
      String → ℤ → List Pod → String → List (Workload S) → Progress → Progress
  unfolding check_workload
  check_workloads kind threshold pods ns [] out = out
  check_workloads kind threshold pods ns (w ∷ ws) out =
      check_workloads kind threshold pods ns ws (check_workload kind threshold pods ns w out)

  -- A list that fails is skipped.
  unfoldable pub check_listed :
      String → ℤ → List Pod → String → Option (List (Workload S)) → Progress → Progress
  unfolding check_workloads
  check_listed kind threshold pods ns none out = out
  check_listed kind threshold pods ns (some ws) out = check_workloads kind threshold pods ns ws out

  -- `podCache[ns]` after the pods of the namespace are fetched, if they were not before.
  unfoldable pub fetch_pods : DataSource S → String → PodCache → PodCache
  unfolding lookup insert
  fetch_pods ds ns cache = elim (lookup ns cache) [
    | some pods ↦ cache
    | none ↦ insert ns (or_no_pods (ds.list_pods ns)) cache
  ]

  unfoldable pub check_namespace : DataSource S → ℤ → List Pod → String → Progress → Progress
  unfolding check_listed
  check_namespace ds threshold pods ns out =
      check_listed "daemonset" threshold pods ns (ds.list_daemon_sets ns) (
        check_listed "statefulset" threshold pods ns (ds.list_stateful_sets ns)
          (check_listed "deployment" threshold pods ns (ds.list_deployments ns) out))

  unfoldable pub check_namespaces : DataSource S → ℤ → PodCache → List String → Progress → Progress
  unfolding fetch_pods check_namespace lookup
  check_namespaces ds threshold cache [] out = out
  check_namespaces ds threshold cache (ns ∷ nss) out =
      let cache' = fetch_pods ds ns cache in
      let pods = or_no_pods (lookup ns cache') in
      check_namespaces ds threshold cache' nss (check_namespace ds threshold pods ns out)

  unfoldable pub check : DataSource S → List (String × ConfigValue) → List String → CheckResult
  unfolding check_namespaces get_restart_threshold
  check ds config namespaces =
      let out =
        check_namespaces ds (get_restart_threshold config) [] namespaces
          (record { healthy = 0; issues = [] }) in
      record {
        checker_name = checker_name;
        healthy = out.healthy;
        issues = out.issues;
        error = none;
      }
