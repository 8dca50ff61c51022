-- ===== src/Controller/TeamHealth.antt =====
-- internal/controller/teamhealthrequest_controller.go: `Reconcile` of a TeamHealthRequest. The state is
-- the object that the API server stores. What one reconcile meets, and what the registry, the
-- correlator and the AI leave as results, is a parameter, and so is the library's
-- `SetStatusCondition`. Nobody else writes the status.
pub mod Reconcile
pub mod Generation
mod Tests
use kube_assist_operator.Prelude.{
  ℕ, ◌+◌, ◌*◌, ◌≡◌, ◌⊎◌, inl, inr, Bool, true, false, not, ◌&&◌, ◌||◌, Option, none, some, List, [],
  ◌∷◌, ◌++◌, String, string_eq, ◌==◌, eqb, ltb, min, if◌then◌else◌, length, take,
}
use kube_assist_operator.Prelude.Texts.{concat}
use kube_assist_operator.Prelude.Numbers.{ℤ, pos, negsuc, show}
use kube_assist_operator.Causal.Types.{Issue, CheckResult, severity_critical, severity_warning}
use kube_assist_operator.Checker.Convert.{to_api_issues}
use kube_assist_operator.Checker.Workload.Check.{ConfigValue, int_value}
use kube_assist_operator.Scope.{resolve_namespaces}
use kube_assist_operator.Api.TeamHealth.{
  CheckerResult, TeamHealthRequestStatus, TeamHealthRequest, Url,
}
use kube_assist_operator.Controller.Troubleshoot.{
  phase_running, phase_completed, phase_failed, Condition, Outcome, done, failure, panicked,
  requeue_after, is_set, second, time_left,
}
use kube_assist_operator.Controller.Notify.{Notification, Sent, dispatch_notifications}

abbrev pub max_namespaces : ℕ
max_namespaces = 50

abbrev pub max_int32 : ℕ
max_int32 = 2147483647

-- `slot` says whether the semaphore of the notifications has room, or there is none.
pub record TeamRun (S : Type 0) : Type 0 where
  pub fetched : Bool
  pub started : ℕ
  pub running_patched : Bool
  pub exists_namespace : String → Bool
  pub list_namespaces : S → String ⊎ List (String × Bool)
  pub registered : List String
  pub run_checks :
      List String → List String → List (String × ConfigValue) → List (String × Option CheckResult)
  pub finished : ℕ
  pub patched : Bool
  pub deleted : Bool
  pub has_notifiers : Bool
  pub slot : Bool
  pub get_secret : String → String → Option (List (String × String))

unfoldable pub get_checker_names : List String → List String → List String
get_checker_names registered [] = registered
get_checker_names registered (c ∷ cs) = c ∷ cs

-- A positive threshold.
unfoldable pub build_checker_config : Option ℤ → List (String × ConfigValue)
build_checker_config none = []
build_checker_config (some (negsuc n)) = []
build_checker_config (some (pos n)) =
    if ltb 0 n then ("restartThreshold", int_value (pos n)) ∷ [] else []

pub record AggregationResult : Type 0 where
  pub api_results : List (String × CheckerResult)
  pub total_healthy : ℕ
  pub total_issues : ℕ
  pub critical_count : ℕ
  pub warning_count : ℕ

-- The switch over the severities of a result.
unfoldable pub count_severities : List Issue → AggregationResult → AggregationResult
count_severities [] agg = agg
count_severities (issue ∷ issues) agg = count_severities issues (
    if issue.severity == severity_critical
    then record agg { critical_count = agg.critical_count + 1 }
    else (if issue.severity == severity_warning
        then record agg { warning_count = agg.warning_count + 1 }
        else agg))

unfoldable pub add_result : String → CheckResult → AggregationResult → AggregationResult
unfolding count_severities
add_result name result agg =
    let api_result : CheckerResult = record {
      healthy = min result.healthy max_int32;
      issues = [];
      error = "";
    } in
    elim (result.error) [
      | some err ↦ record agg {
        api_results = (name, record api_result { error = err }) ∷ agg.api_results;
      }
      | none ↦
          let counted = record agg {
            total_healthy = agg.total_healthy + result.healthy;
            total_issues = agg.total_issues + length result.issues;
          } in
          let agg' = count_severities result.issues counted in
          record agg' {
            api_results =
                (name, record api_result { issues = to_api_issues result.issues })
                ∷ agg'.api_results;
          }
    ]

-- A nil result panics.
unfoldable pub aggregate_results :
    List (String × Option CheckResult) → AggregationResult → Option AggregationResult
unfolding add_result
aggregate_results [] agg = some agg
aggregate_results ((name, none) ∷ results) agg = none
aggregate_results ((name, some result) ∷ results) agg =
    aggregate_results results (add_result name result agg)

abbrev pub no_results : AggregationResult
no_results = record {
  api_results = [];
  total_healthy = 0;
  total_issues = 0;
  critical_count = 0;
  warning_count = 0;
}

unfoldable pub generate_summary : ℕ → ℕ → ℕ → ℕ → String
unfolding concat show
generate_summary healthy issues critical warning =
    if eqb issues 0
    then concat ("All " ∷ show healthy ∷ " resource(s) healthy - no issues found" ∷ [])
    else (if ltb 0 critical
        then concat (
            show critical
            ∷ " critical, "
            ∷ show warning
            ∷ " warning issue(s) found across "
            ∷ show (healthy + issues)
            ∷ " resource(s)"
            ∷ [])
        else concat (
            show warning
            ∷ " warning issue(s) found across "
            ∷ show (healthy + issues)
            ∷ " resource(s)"
            ∷ []))

-- `Status().Patch` with the merge patch from `base` to `changed`: only what differs is written. All
-- that the reconciler changes but the observed generation differs from what is stored only where
-- it differs from the base.
unfoldable pub merge_patch :
    {S C : Type 0} → (base changed stored : TeamHealthRequest S C) → TeamHealthRequest S C
merge_patch base changed stored = record changed {
  status = record (changed.status) {
    observed_generation =
        if eqb changed.status.observed_generation base.status.observed_generation
        then stored.status.observed_generation
        else changed.status.observed_generation;
  };
}
