-- ===== src/Checker/Workload/Tags.antt =====
-- The types of the issues that the workload checker reports, against the patterns of the
-- cross-checker rules.
use kube_assist_operator.Prelude.{
  ◌≡◌, refl, Bool, true, false, not, ◌&&◌, Option, none, some, List, [], ◌∷◌, ◌++◌, map, String,
  string_eq, ◌==◌, eqb, All, All-append, All-impl, Bool-cases, Option-cases, inl, inr, length,
  arith,
}
use kube_assist_operator.Prelude.Texts.{concat, codes, has_infix, to_upper, has_prefix}
use kube_assist_operator.Prelude.Numbers.{ℤ}
use kube_assist_operator.Causal.Types.{Issue}
use kube_assist_operator.Causal.Rules.{
  CrossCheckerRule, default_rules, match_oom_quota, match_crash_image_pull, match_flux_chain,
  match_pvc_workload,
}
use kube_assist_operator.Checker.Workload.Pods.{
  ContainerStateWaiting, ContainerStateTerminated, ContainerStatus, PodCondition, Container, Pod,
}
use kube_assist_operator.Checker.Workload.Diagnose.{
  when, check_container_best_practices, not_ready_issue, status_issues, condition_issue,
  condition_issues, container_issues, diagnose_pod, diagnose_pods,
}
use kube_assist_operator.Checker.Workload.Check.{
  checker_name, ConfigValue, get_restart_threshold, Workload, DataSource, Progress, PodCache,
  check_workload, check_workloads, check_listed, fetch_pods, check_namespace, check_namespaces,
  check, filter_pods_for_workload,
}

-- No default rule has a tag for the issue, as one of the workload checker.
abbrev pub Untagged : Issue → Type 0
Untagged i = All (λ rule. CrossCheckerRule.matches rule checker_name i ≡ none) default_rules

abbrev mentions : String → String → Bool
mentions type word = has_infix (map to_upper (codes type)) (codes word)

-- None of the words that the rules look for is in the type.
quiet : String → Bool
unfolding has_infix has_prefix to_upper
quiet type =
    not (mentions type "OOM")
    && (not (mentions type "CRASHLOOP")
        && (not (mentions type "IMAGEPULL")
            && (not (mentions type "PENDING") && not (mentions type "UNSCHEDULABLE"))))

abbrev IsQuiet : Issue → Type 0
IsQuiet i = quiet i.type ≡ true

IsQuiet→Untagged : (i : Issue) → IsQuiet i → Untagged i
unfolding quiet match_oom_quota match_crash_image_pull match_flux_chain match_pvc_workload
IsQuiet→Untagged i h =
    (ground (arith, h), (ground (arith, h), (ground (arith, h), (ground (arith, h), tt))))

record Quiets (is : List Issue) : Type 0 where
  all : All IsQuiet is

nothing : Quiets []
nothing = record { all = tt }

one_if : (b : Bool) (i : Issue) → IsQuiet i → Quiets (when b i)
unfolding when
one_if true i h = record { all = (h, tt) }
one_if false i h = nothing

join : {is js : List Issue} → Quiets is → Quiets js → Quiets (is ++ js)
join {is} {js} q r = record { all = All-append IsQuiet is js q.all r.all }

module _ (ns ref : String) where
  check_container_best_practices-IsQuiet :
      (c : Container) (pod : String) → Quiets (check_container_best_practices ns ref c pod)
  unfolding check_container_best_practices quiet
  check_container_best_practices-IsQuiet c pod =
      join (one_if _ _ refl)
        (join (one_if _ _ refl) (join (one_if _ _ refl) (join (one_if _ _ refl) (one_if _ _ refl))))

  not_ready_issue-IsQuiet :
      (pod name : String) (w : Option ContainerStateWaiting) (t : Option ContainerStateTerminated)
      → IsQuiet (not_ready_issue ns ref pod name w t)
  unfolding not_ready_issue quiet
  not_ready_issue-IsQuiet pod name (some w) t = refl
  not_ready_issue-IsQuiet pod name none (some t) = refl
  not_ready_issue-IsQuiet pod name none none = refl

  status_issues-IsQuiet :
      (pod : String) (threshold : ℤ) (css : List ContainerStatus)
      → Quiets (status_issues ns ref pod threshold css)
  unfolding status_issues quiet
  status_issues-IsQuiet pod threshold [] = nothing
  status_issues-IsQuiet pod threshold (cs ∷ css) =
      join (one_if _ _ (not_ready_issue-IsQuiet pod cs.name cs.waiting cs.terminated))
        (join (one_if _ _ refl) (status_issues-IsQuiet pod threshold css))

  condition_issue-IsQuiet :
      (pod : String) (cond : PodCondition) → Quiets (condition_issue ns ref pod cond)
  unfolding condition_issue quiet
  condition_issue-IsQuiet pod cond = elim (Bool-cases (cond.type == "PodScheduled")) [
    | inl scheduled ↦ rw scheduled (record { all = (refl, tt) })
    | inr other ↦ rw other (one_if _ _ refl)
  ]

  condition_issues-IsQuiet :
      (pod : String) (conds : List PodCondition) → Quiets (condition_issues ns ref pod conds)
  unfolding condition_issues
  condition_issues-IsQuiet pod [] = nothing
  condition_issues-IsQuiet pod (cond ∷ conds) = elim (Bool-cases (cond.status == "False")) [
    | inl off ↦
        rw off (join (condition_issue-IsQuiet pod cond) (condition_issues-IsQuiet pod conds))
    | inr on ↦ rw on (condition_issues-IsQuiet pod conds)
  ]

  container_issues-IsQuiet :
      (pod : String) (cs : List Container) → Quiets (container_issues ns ref pod cs)
  unfolding container_issues
  container_issues-IsQuiet pod [] = nothing
  container_issues-IsQuiet pod (c ∷ cs) =
      join (check_container_best_practices-IsQuiet c pod) (container_issues-IsQuiet pod cs)

  diagnose_pods-IsQuiet :
      (pods : List Pod) (threshold : ℤ) → Quiets (diagnose_pods ns ref pods threshold)
  unfolding diagnose_pods diagnose_pod quiet
  diagnose_pods-IsQuiet [] threshold = nothing
  diagnose_pods-IsQuiet (pod ∷ pods) threshold =
      join
        (join (one_if _ _ refl) (
          join (status_issues-IsQuiet pod.name threshold pod.container_statuses) (
            join (condition_issues-IsQuiet pod.name pod.conditions)
              (container_issues-IsQuiet pod.name pod.containers))))
        (diagnose_pods-IsQuiet pods threshold)

module _ {S : Type 0} (as_selector : S → Option (List (String × String) → Bool)) where
  abbrev Quietly : Progress → Type 0
  Quietly out = Quiets out.issues

  check_workload-Quietly :
      (kind : String) (threshold : ℤ) (pods : List Pod) (ns : String) (w : Workload S)
      (out : Progress)
      → Quietly out
      → Quietly (check_workload as_selector kind threshold pods ns w out)
  unfolding check_workload
  check_workload-Quietly kind threshold pods ns w out h =
      elim (Option-cases (filter_pods_for_workload as_selector pods w.selector)) [
        | inl bad ↦ rw (bad, check_workload) h
        | inr (matched, good) ↦
            let ref = concat (kind ∷ "/" ∷ w.name ∷ []) in
            let found = diagnose_pods ns ref matched threshold in
            elim (Bool-cases (eqb (length found) 0)) [
              | inl healthy ↦ rw (good, healthy, check_workload) h
              | inr sick ↦
                  rw (good, sick, check_workload)
                    (join h (diagnose_pods-IsQuiet ns ref matched threshold))
            ]
      ]

  check_workloads-Quietly :
      (kind : String) (threshold : ℤ) (pods : List Pod) (ns : String) (ws : List (Workload S))
      (out : Progress)
      → Quietly out
      → Quietly (check_workloads as_selector kind threshold pods ns ws out)
  unfolding check_workloads
  check_workloads-Quietly kind threshold pods ns [] out h = h
  check_workloads-Quietly kind threshold pods ns (w ∷ ws) out h =
      check_workloads-Quietly kind threshold pods ns ws
        (check_workload as_selector kind threshold pods ns w out)
        (check_workload-Quietly kind threshold pods ns w out h)

  check_listed-Quietly :
      (kind : String) (threshold : ℤ) (pods : List Pod) (ns : String)
      (ws : Option (List (Workload S))) (out : Progress)
      → Quietly out
      → Quietly (check_listed as_selector kind threshold pods ns ws out)
  unfolding check_listed
  check_listed-Quietly kind threshold pods ns none out h = h
  check_listed-Quietly kind threshold pods ns (some ws) out h =
      check_workloads-Quietly kind threshold pods ns ws out h

  check_namespaces-Quietly :
      (ds : DataSource S) (threshold : ℤ) (cache : PodCache) (nss : List String) (out : Progress)
      → Quietly out
      → Quietly (check_namespaces as_selector ds threshold cache nss out)
  unfolding check_namespaces check_namespace
  check_namespaces-Quietly ds threshold cache [] out h = h
  check_namespaces-Quietly ds threshold cache (ns ∷ nss) out h =
      check_namespaces-Quietly ds threshold (fetch_pods as_selector ds ns cache) nss _ (
        check_listed-Quietly "daemonset" threshold _ ns (ds.list_daemon_sets ns) _ (
          check_listed-Quietly "statefulset" threshold _ ns (ds.list_stateful_sets ns) _
            (check_listed-Quietly "deployment" threshold _ ns (ds.list_deployments ns) out h)))

  -- Whatever the data source lists, no issue that the workload checker reports has a tag under any
  -- of the default cross-checker rules.
  pub check-Untagged :
      (ds : DataSource S) (config : List (String × ConfigValue)) (namespaces : List String)
      → let result = check as_selector ds config namespaces in All Untagged result.issues
  unfolding check
  check-Untagged ds config namespaces = All-impl IsQuiet Untagged _ IsQuiet→Untagged (
      Quiets.all
        (check_namespaces-Quietly ds (get_restart_threshold config) [] namespaces _ nothing))
