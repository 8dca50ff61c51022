-- ===== src/Controller/Troubleshoot/Tests.antt =====
-- A request for a deployment with one pod; the conditions are kept newest first.
use kube_assist_operator.Prelude.{
  ◌+◌, ◌*◌, ◌≡◌, refl, true, false, none, some, List, [], ◌∷◌, String, string_eq, ◌==◌,
  if◌then◌else◌,
}
use kube_assist_operator.Prelude.Numbers.{pos}
use kube_assist_operator.Checker.Workload.Pods.{Pod}
use kube_assist_operator.Controller.Troubleshoot.{
  phase_completed, phase_failed, Condition, TroubleshootRequest, Run, find_target_pods, failure,
  second, reconcile, time_left,
}
use kube_assist_operator.Controller.Troubleshoot.Phases.{
  is_over, is_under_way, EndsAs, has_pods, started, reconcile_all, reconcile-EndsAs,
  lost_patch-stays,
}

abbrev set_status_condition : List Condition → Condition → List Condition
set_status_condition cs c = c ∷ cs

abbrev fresh : TroubleshootRequest (List Condition)
fresh = record {
  name = "look";
  generation = 1;
  spec = record {
    target_kind = "Deployment";
    target_name = "api";
    actions = "diagnose" ∷ "logs" ∷ [];
    tail_lines = 100;
    ttl_seconds_after_finished = some (pos 60);
  };
  status = record {
    observed_generation = 0;
    phase = "";
    summary = "";
    issues = [];
    logs_config_map = "";
    events_config_map = "";
    started_at = none;
    completed_at = none;
    conditions = [];
  };
}

abbrev pod : Pod
pod = record {
  name = "api-1";
  namespace = "shop";
  labels = [];
  phase = "Running";
  container_statuses = [];
  conditions = [];
  containers = [];
}

abbrev answered : Run String
answered = record {
  fetched = true;
  started = 5;
  updated = true;
  get_selector = λ kind name. if kind == "Deployment" then some "app=api" else none;
  get_pod = λ name. none;
  list_matching = λ selector. some (pod ∷ []);
  find_error = "not found";
  logs = none;
  logs_error = "forbidden";
  events = none;
  events_error = "forbidden";
  finished = 9;
  patched = true;
  deleted = true;
}

abbrev unpatched : Run String
unpatched = record answered { patched = false }

reconcile-EndsAs_example :
    EndsAs answered fresh
      (if has_pods (find_target_pods answered fresh.spec) then phase_completed else phase_failed)
      (reconcile set_status_condition answered (some fresh))
unfolding is_over is_under_way
reconcile-EndsAs_example =
    reconcile-EndsAs set_status_condition answered fresh refl refl refl refl refl

pods_found : has_pods (find_target_pods answered fresh.spec) ≡ true
unfolding has_pods find_target_pods
pods_found = refl

lost_patch-stays_example :
    ((reconcile set_status_condition unpatched (some fresh)).1 ≡ failure)
    × (reconcile_all set_status_condition
          (answered ∷ answered ∷ [])
          (reconcile set_status_condition unpatched (some fresh)).0
        ≡ some (started set_status_condition unpatched fresh))
unfolding is_over is_under_way
lost_patch-stays_example =
    lost_patch-stays set_status_condition unpatched (answered ∷ answered ∷ []) fresh refl refl refl
      refl refl

kept_for_a_minute : time_left 9 (pos 60) (30 * second) ≡ some (30 * second + 9)
unfolding time_left
kept_for_a_minute = refl
