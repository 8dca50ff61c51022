-- ===== src/Controller/TeamHealth/Reconcile.antt =====
-- internal/controller/teamhealthrequest_controller.go: `Reconcile` and the steps it is made of.
use kube_assist_operator.Prelude.{
  ◌*◌, inl, inr, Bool, true, false, ◌&&◌, ◌||◌, Option, none, some, List, [], ◌∷◌, String,
  string_eq, ◌==◌, ltb, if◌then◌else◌, length, take,
}
use kube_assist_operator.Prelude.Texts.{concat}
use kube_assist_operator.Prelude.Numbers.{show}
use kube_assist_operator.Scope.{resolve_namespaces}
use kube_assist_operator.Api.TeamHealth.{TeamHealthRequest, Url}
use kube_assist_operator.Controller.Troubleshoot.{
  phase_running, phase_completed, phase_failed, Condition, Outcome, done, failure, panicked,
  requeue_after, is_set, second, time_left,
}
use kube_assist_operator.Controller.Notify.{Sent, dispatch_notifications}
use kube_assist_operator.Controller.TeamHealth.{
  max_namespaces, TeamRun, get_checker_names, build_checker_config, AggregationResult,
  aggregate_results, no_results, generate_summary, merge_patch,
}

-- What is stored after a reconcile, what it returns, and the notifications that it sends.
pub record Reconciled (S C : Type 0) : Type 0 where
  pub stored : Option (TeamHealthRequest S C)
  pub outcome : Outcome
  pub notifications : List Sent

abbrev pub reconciled :
    {S C : Type 0} → Option (TeamHealthRequest S C) → Outcome → List Sent → Reconciled S C
reconciled stored outcome sent = record { stored = stored; outcome = outcome; notifications = sent }

unfoldable pub handle_team_ttl : {S C : Type 0} → TeamRun S → TeamHealthRequest S C → Reconciled S C
unfolding time_left
handle_team_ttl run hr = elim (hr.spec.ttl_seconds_after_finished) [
  | none ↦ reconciled (some hr) done []
  | some ttl ↦ elim (hr.status.completed_at) [
    | none ↦ reconciled (some hr) done []
    | some completed ↦ elim (time_left completed ttl run.finished) [
      | none ↦ if run.deleted then reconciled none done [] else reconciled (some hr) failure []
      | some remaining ↦ reconciled (some hr) (requeue_after remaining) []
    ]
  ]
]

-- `names[:MaxNamespaces]`, of more than that many.
unfoldable pub limit_namespaces : List String → List String
limit_namespaces nss = if ltb max_namespaces (length nss) then take max_namespaces nss else nss

module _ {S C : Type 0} (set_status_condition : C → Condition → C) where
  unfoldable pub set_team_condition :
      TeamHealthRequest S C → String → Bool → String → String → TeamHealthRequest S C
  set_team_condition hr type status reason message = record hr {
    status = record (hr.status) {
      conditions = set_status_condition (hr.status.conditions) (record {
        type = type;
        status = status;
        observed_generation = hr.generation;
        reason = reason;
        message = message;
      });
    };
  }

  abbrev pub patch_team :
      TeamRun S → TeamHealthRequest S C → TeamHealthRequest S C → List Sent → Reconciled S C
  patch_team run original hr sent =
      if run.patched
      then reconciled (some (merge_patch original hr original)) done sent
      else reconciled (some original) failure []

  unfoldable pub set_team_failed : TeamRun S → TeamHealthRequest S C → String → Reconciled S C
  unfolding set_team_condition merge_patch
  set_team_failed run original message =
      let failed = record original {
        status = record (original.status) {
          phase = phase_failed;
          summary = message;
          last_check_time = some run.finished;
          completed_at = some run.finished;
        };
      } in
      patch_team run original (set_team_condition failed "Complete" false "Failed" message) []

  module _ (parse : String → Option Url) (trim_space : String → String) (configured : String) where
    -- `launchNotifications`, where the request has targets and there is a registry of notifiers.
    unfoldable pub launch_notifications :
        TeamRun S → TeamHealthRequest S C → AggregationResult → List Sent
    unfolding dispatch_notifications
    launch_notifications run hr agg =
        if run.has_notifiers && run.slot
        then dispatch_notifications parse trim_space run.get_secret configured hr
            (record {
              summary = hr.status.summary;
              total_healthy = agg.total_healthy;
              total_issues = agg.total_issues;
              critical_count = agg.critical_count;
              warning_count = agg.warning_count;
              request_name = hr.name;
              namespace = hr.namespace;
            })
            hr.spec.notify
        else []

    -- The checks on the namespaces found, and what is left to do.
    unfoldable pub check_team : TeamRun S → TeamHealthRequest S C → List String → Reconciled S C
    unfolding limit_namespaces set_team_condition get_checker_names build_checker_config
        aggregate_results generate_summary merge_patch launch_notifications concat show
    check_team run original found =
        let many = ltb max_namespaces (length found) in
        let nss = limit_namespaces found in
        let noted = record original {
          status = record (original.status) { namespaces_checked = nss };
        } in
        let resolved =
          set_team_condition noted "NamespacesResolved" true
            (if many then "Truncated" else "Resolved")
            (if many
              then concat (
                  "Evaluated "
                  ∷ show max_namespaces
                  ∷ " of "
                  ∷ show (length found)
                  ∷ " namespace(s) (max: "
                  ∷ show max_namespaces
                  ∷ ")"
                  ∷ [])
              else concat ("Found " ∷ show (length nss) ∷ " namespace(s)" ∷ [])) in
        let results =
          run.run_checks nss (get_checker_names run.registered original.spec.checks)
            (build_checker_config original.spec.restart_threshold) in
        elim (aggregate_results results no_results) [
          | none ↦ reconciled (some original) panicked []
          | some agg ↦
              let summary =
                generate_summary agg.total_healthy agg.total_issues agg.critical_count
                  agg.warning_count in
              let completed = record resolved {
                status = record (resolved.status) {
                  results = agg.api_results;
                  summary =
                      if many
                      then concat (
                          summary
                          ∷ " (evaluated "
                          ∷ show max_namespaces
                          ∷ " of "
                          ∷ show (length found)
                          ∷ " namespaces)"
                          ∷ [])
                      else summary;
                  last_check_time = some run.finished;
                  completed_at = some run.finished;
                  phase = phase_completed;
                };
              } in
              let final =
                set_team_condition
                  (set_team_condition completed "CheckersCompleted" true "Completed"
                    (concat ("Ran " ∷ show (length results) ∷ " checker(s)" ∷ [])))
                  "Complete" true "Complete" "Health check completed" in
              patch_team run original final
                (launch_notifications run (merge_patch original final original) agg)
        ]

    -- From the stored phase Running on.
    unfoldable pub execute_team : TeamRun S → TeamHealthRequest S C → Reconciled S C
    unfolding resolve_namespaces set_team_failed check_team concat
    execute_team run original =
        elim (resolve_namespaces run.exists_namespace run.list_namespaces original.namespace
          original.spec.scope) [
            | inl err ↦
                set_team_failed run original (concat ("Failed to resolve namespaces: " ∷ err ∷ []))
            | inr nss ↦ elim nss [
              | [] ↦ set_team_failed run original "No namespaces found matching scope"
              | n ∷ ns ↦ check_team run original (n ∷ ns)
            ]
          ]

    unfoldable pub reconcile_team : TeamRun S → Option (TeamHealthRequest S C) → Reconciled S C
    unfolding handle_team_ttl merge_patch execute_team
    reconcile_team run none = reconciled none (if run.fetched then done else failure) []
    reconcile_team run (some stored) =
        let hr = record stored {
          status = record (stored.status) { observed_generation = stored.generation };
        } in
        let running = record hr {
          status = record (hr.status) {
            phase = phase_running;
            started_at =
                if is_set hr.status.started_at then hr.status.started_at else some run.started;
          };
        } in
        let phase = stored.status.phase in
        if run.fetched
        then (if phase == phase_completed || phase == phase_failed
            then handle_team_ttl run stored
            else (if phase == phase_running && is_set stored.status.started_at
                then reconciled (some stored) (requeue_after (5 * second)) []
                else (if run.running_patched
                    then execute_team run (merge_patch hr running stored)
                    else reconciled (some stored) failure [])))
        else reconciled (some stored) failure []
