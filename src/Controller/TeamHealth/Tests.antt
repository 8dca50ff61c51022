-- ===== src/Controller/TeamHealth/Tests.antt =====
-- A request for a health check of its own namespace, with one checker, that notifies a webhook.
use kube_assist_operator.Prelude.{
  ◌≡◌, inl, refl, true, Option, none, some, List, [], ◌∷◌, map, String, string_eq, ◌==◌,
  if◌then◌else◌, lookup, contains,
}
use kube_assist_operator.Prelude.Texts.{concat}
use kube_assist_operator.Prelude.Numbers.{show, pos}
use kube_assist_operator.Causal.Types.{Issue}
use kube_assist_operator.Scope.{resolve_namespaces}
use kube_assist_operator.Api.TeamHealth.{TeamHealthRequest, Url}
use kube_assist_operator.Controller.Troubleshoot.{Condition}
use kube_assist_operator.Controller.Notify.{Sent, dispatch_notifications}
use kube_assist_operator.Controller.TeamHealth.{
  TeamRun, aggregate_results, generate_summary, merge_patch,
}
use kube_assist_operator.Controller.TeamHealth.Reconcile.{
  Reconciled, handle_team_ttl, execute_team, check_team, reconcile_team,
}
use kube_assist_operator.Controller.TeamHealth.Generation.{
  reconcile_team_all, reconcile_team_all-observed_generation,
}

abbrev set_status_condition : List Condition → Condition → List Condition
set_status_condition cs c = c ∷ cs

abbrev parse : String → Option Url
parse url =
    if url == "https://hooks.example/x"
    then some (record { scheme = "https"; hostname = "hooks.example" })
    else none

abbrev trim_space : String → String
trim_space s = s

abbrev fresh : TeamHealthRequest String (List Condition)
fresh = record {
  name = "nightly";
  namespace = "shop";
  generation = 3;
  annotations = [];
  spec = record {
    scope = record { namespaces = []; namespace_selector = none; current_namespace_only = true };
    checks = "workloads" ∷ [];
    restart_threshold = some (pos 5);
    ttl_seconds_after_finished = none;
    notify =
        record {
          type = "slack";
          url = "https://hooks.example/x";
          secret_ref = none;
          on_completion = true;
          on_severity = "Critical";
        }
        ∷ [];
  };
  status = record {
    observed_generation = 0;
    phase = "";
    summary = "";
    results = [];
    namespaces_checked = [];
    last_check_time = none;
    started_at = none;
    completed_at = none;
    conditions = [];
  };
}

abbrev down : Issue
down = record {
  type = "PodNotRunning";
  severity = "Critical";
  resource = "deployment/api";
  namespace = "shop";
  message = "Pod api-1 is in Pending phase";
  suggestion = "";
  metadata = [];
}

abbrev answered : TeamRun String
answered = record {
  fetched = true;
  started = 5;
  running_patched = true;
  exists_namespace = λ ns. true;
  list_namespaces = λ s. inl "forbidden";
  registered = "workloads" ∷ "pvcs" ∷ [];
  run_checks = λ nss names config.
      ((
        "workloads",
        some (record { checker_name = "workloads"; healthy = 2; issues = down ∷ []; error = none }),
      )
        ∷ []);
  finished = 9;
  patched = true;
  deleted = true;
  has_notifiers = true;
  slot = true;
  get_secret = λ ns name. none;
}

abbrev result : Reconciled String (List Condition)
result = reconcile_team set_status_condition parse trim_space "" answered (some fresh)

phase_of : Option (TeamHealthRequest String (List Condition)) → String × String
phase_of none = ("", "")
phase_of (some hr) = (hr.status.phase, hr.status.summary)

one_run :
    (phase_of (Reconciled.stored result)
      ≡ ("Completed", "1 critical, 0 warning issue(s) found across 3 resource(s)"))
    × (map (λ s. Sent.webhook_url s) (Reconciled.notifications result)
        ≡ "https://hooks.example/x" ∷ [])
unfolding phase_of reconcile_team execute_team check_team resolve_namespaces aggregate_results
    generate_summary merge_patch dispatch_notifications lookup contains concat show
one_run = (refl, refl)

abbrev condition : String → String → String → Condition
condition type reason message = record {
  type = type;
  status = true;
  observed_generation = 3;
  reason = reason;
  message = message;
}

abbrev finished : TeamHealthRequest String (List Condition)
finished = record fresh {
  status = record {
    observed_generation = 0;
    phase = "Completed";
    summary = "1 critical, 0 warning issue(s) found across 3 resource(s)";
    results =
        (
          "workloads",
          record {
            healthy = 2;
            issues =
                record {
                  type = "PodNotRunning";
                  severity = "Critical";
                  message = "Pod api-1 is in Pending phase";
                  suggestion = "";
                }
                ∷ [];
            error = "";
          },
        )
        ∷ [];
    namespaces_checked = "shop" ∷ [];
    last_check_time = some 9;
    started_at = some 5;
    completed_at = some 9;
    conditions =
        condition "Complete" "Complete" "Health check completed"
        ∷ condition "CheckersCompleted" "Completed" "Ran 1 checker(s)"
        ∷ condition "NamespacesResolved" "Resolved" "Found 1 namespace(s)"
        ∷ [];
  };
}

reconcile_team_all-observed_generation_example :
    finished.status.observed_generation ≡ fresh.status.observed_generation
unfolding reconcile_team_all reconcile_team execute_team check_team resolve_namespaces
    aggregate_results generate_summary merge_patch handle_team_ttl concat show
reconcile_team_all-observed_generation_example =
    reconcile_team_all-observed_generation set_status_condition parse trim_space ""
      (answered ∷ answered ∷ []) fresh finished refl
