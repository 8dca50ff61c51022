-- ===== src/Controller/Troubleshoot.antt =====
-- internal/controller/troubleshootrequest_controller.go: `Reconcile` of a TroubleshootRequest. The
-- state is the object that the API server stores. What the API answers to the calls of one
-- reconcile, the clock's readings and the library's `SetStatusCondition` are parameters. Nobody
-- else writes the status.
pub mod Phases
mod Tests
use kube_assist_operator.Prelude.{
  ℕ, ◌+◌, ◌-◌, ◌*◌, Bool, true, false, ◌&&◌, ◌||◌, Option, none, some, List, [], ◌∷◌, ◌++◌, String,
  string_eq, ◌==◌, eqb, ltb, leb, if◌then◌else◌, length, contains,
}
use kube_assist_operator.Prelude.Texts.{concat}
use kube_assist_operator.Prelude.Numbers.{ℤ, pos, negsuc, show}
use kube_assist_operator.Checker.Workload.Pods.{Pod}
use kube_assist_operator.Controller.Diagnose.{
  DiagnosticIssue, diagnose_pods_detailed, generate_summary,
}

abbrev pub phase_running : String
phase_running = "Running"

abbrev pub phase_completed : String
phase_completed = "Completed"

abbrev pub phase_failed : String
phase_failed = "Failed"

-- `metav1.Condition`; the library fills in the time of the transition.
pub record Condition : Type 0 where
  pub type : String
  pub status : Bool
  pub observed_generation : ℕ
  pub reason : String
  pub message : String

pub record Spec : Type 0 where
  pub target_kind : String
  pub target_name : String
  pub actions : List String
  pub tail_lines : ℕ
  pub ttl_seconds_after_finished : Option ℤ

-- `C` is the list of conditions.
pub record Status (C : Type 0) : Type 0 where
  pub observed_generation : ℕ
  pub phase : String
  pub summary : String
  pub issues : List DiagnosticIssue
  pub logs_config_map : String
  pub events_config_map : String
  pub started_at : Option ℕ
  pub completed_at : Option ℕ
  pub conditions : C

pub record TroubleshootRequest (C : Type 0) : Type 0 where
  pub name : String
  pub generation : ℕ
  pub spec : Spec
  pub status : Status C

-- What one reconcile meets. `fetched` says whether `Get` works; a workload is got by kind and name
-- for its selector, whose pods are listed; the config maps are stored under a name, or not.
pub record Run (S : Type 0) : Type 0 where
  pub fetched : Bool
  pub started : ℕ
  pub updated : Bool
  pub get_selector : String → String → Option S
  pub get_pod : String → Option Pod
  pub list_matching : S → Option (List Pod)
  pub find_error : String
  pub logs : Option String
  pub logs_error : String
  pub events : Option String
  pub events_error : String
  pub finished : ℕ
  pub patched : Bool
  pub deleted : Bool

-- `ctrl.Result` with the error, or a panic.
pub data Outcome : Type 0 where
  done failure panicked : Outcome
  requeue_after : ℕ → Outcome

-- What looking for the pods gives; the error is its text.
pub data Found : Type 0 where
  found_pods : List Pod → Found
  find_failed : String → Found

abbrev pub kinds_with_selector : List String
kinds_with_selector = "Deployment" ∷ "" ∷ "StatefulSet" ∷ "DaemonSet" ∷ "ReplicaSet" ∷ []

unfoldable pub find_target_pods : {S : Type 0} → Run S → Spec → Found
unfolding contains concat
find_target_pods run spec =
    if contains spec.target_kind kinds_with_selector
    then elim (run.get_selector (if spec.target_kind == "" then "Deployment" else spec.target_kind)
        spec.target_name) [
          | none ↦ find_failed run.find_error
          | some selector ↦ elim (run.list_matching selector) [
            | none ↦ find_failed run.find_error
            | some pods ↦ found_pods pods
          ]
        ]
    else (if spec.target_kind == "Pod"
        then elim (run.get_pod spec.target_name) [
          | none ↦ find_failed run.find_error
          | some pod ↦ found_pods (pod ∷ [])
        ]
        else find_failed (concat ("unsupported target kind: " ∷ spec.target_kind ∷ [])))

abbrev pub is_set : Option ℕ → Bool
is_set none = false
is_set (some t) = true

abbrev pub second : ℕ
second = 1000000000

-- `tr.Spec.Actions` has one of the actions that collect; each loop breaks at the first.
unfoldable pub asks_for : String → List String → Bool
asks_for action [] = false
asks_for action (a ∷ as_) = (a == action || (a == "all" || a == "describe")) || asks_for action as_

-- The switch in the loop over the actions.
unfoldable pub run_diagnostics : List String → List Pod → List DiagnosticIssue
unfolding diagnose_pods_detailed
run_diagnostics [] pods = []
run_diagnostics (a ∷ as_) pods =
    (if a == "diagnose" || (a == "all" || a == "describe") then diagnose_pods_detailed pods else [])
    ++ run_diagnostics as_ pods

-- The time left until the request is deleted; `none` when it is over. A negative lifetime is over
-- that long before the end.
unfoldable pub time_left : ℕ → ℤ → ℕ → Option ℕ
time_left completed (pos ttl) now =
    if leb (completed + ttl * second) now then none else some (completed + ttl * second - now)
time_left completed (negsuc n) now =
    if leb completed (now + (n + 1) * second)
    then none
    else some (completed - (now + (n + 1) * second))

module _ {C : Type 0} (set_status_condition : C → Condition → C) where
  unfoldable pub set_condition :
      TroubleshootRequest C → String → Bool → String → String → TroubleshootRequest C
  set_condition tr type status reason message = record tr {
    status = record (tr.status) {
      conditions = set_status_condition (tr.status.conditions) (record {
        type = type;
        status = status;
        observed_generation = tr.generation;
        reason = reason;
        message = message;
      });
    };
  }

module _ {S C : Type 0} (set_status_condition : C → Condition → C) where
  -- Patching the status: the stored object is the changed one, or the old one beside an error.
  abbrev pub patch_status :
      Run S
      → TroubleshootRequest C
      → TroubleshootRequest C
      → Option (TroubleshootRequest C) × Outcome
  patch_status run original tr = if run.patched then (some tr, done) else (some original, failure)

  unfoldable pub set_failed :
      Run S
      → TroubleshootRequest C
      → TroubleshootRequest C
      → String
      → Option (TroubleshootRequest C) × Outcome
  unfolding set_condition
  set_failed run original tr message =
      let tr' = record tr {
        status = record (tr.status) {
          phase = phase_failed;
          summary = message;
          completed_at = some run.finished;
        };
      } in
      patch_status run original
        (set_condition set_status_condition tr' "Complete" false "Failed" message)

  unfoldable pub handle_ttl_cleanup :
      Run S → TroubleshootRequest C → Option (TroubleshootRequest C) × Outcome
  unfolding time_left
  handle_ttl_cleanup run tr = elim (tr.spec.ttl_seconds_after_finished) [
    | none ↦ (some tr, done)
    | some ttl ↦ elim (tr.status.completed_at) [
      | none ↦ (some tr, done)
      | some completed ↦ elim (time_left completed ttl run.finished) [
        | none ↦ if run.deleted then (none, done) else (some tr, failure)
        | some remaining ↦ (some tr, requeue_after remaining)
      ]
    ]
  ]

  -- Logs, where an action asks for them: the request, and whether data is missing.
  unfoldable pub collect_logs_step : Run S → TroubleshootRequest C → TroubleshootRequest C × Bool
  unfolding set_condition asks_for concat
  collect_logs_step run tr =
      if asks_for "logs" tr.spec.actions
      then elim (run.logs) [
        | none ↦ (
          set_condition set_status_condition tr "LogsCollected" false "Failed"
              (concat ("Log collection failed: " ∷ run.logs_error ∷ [])),
          true,
        )
        | some name ↦ (
          set_condition set_status_condition
              (record tr { status = record (tr.status) { logs_config_map = name } }) "LogsCollected"
              true "Collected" "Logs stored in ConfigMap",
          false,
        )
      ]
      else (tr, false)

  unfoldable pub collect_events_step : Run S → TroubleshootRequest C → TroubleshootRequest C × Bool
  unfolding set_condition asks_for concat
  collect_events_step run tr =
      if asks_for "events" tr.spec.actions
      then elim (run.events) [
        | none ↦ (
          set_condition set_status_condition tr "EventsCollected" false "Failed"
              (concat ("Event collection failed: " ∷ run.events_error ∷ [])),
          true,
        )
        | some name ↦ (
          set_condition set_status_condition
              (record tr { status = record (tr.status) { events_config_map = name } })
              "EventsCollected" true "Collected" "Events stored in ConfigMap",
          false,
        )
      ]
      else (tr, false)

  -- What is left when the pods are found.
  unfoldable pub finish :
      Run S → TroubleshootRequest C → List Pod → Option (TroubleshootRequest C) × Outcome
  unfolding set_condition run_diagnostics collect_logs_step collect_events_step generate_summary
      concat show
  finish run original pods =
      let found =
        set_condition set_status_condition original "TargetFound" true "Found"
          (concat ("Found " ∷ show (length pods) ∷ " pod(s)" ∷ [])) in
      let issues = run_diagnostics found.spec.actions pods in
      let (logged, no_logs) = collect_logs_step run found in
      let (collected, no_events) = collect_events_step run logged in
      let summary = generate_summary pods issues in
      let completed = record collected {
        status = record (collected.status) {
          issues = issues;
          summary =
              if no_logs || no_events then concat (summary ∷ " (partial data)" ∷ []) else summary;
          phase = phase_completed;
          completed_at = some run.finished;
        };
      } in
      patch_status run original (
        set_condition set_status_condition
          (set_condition set_status_condition completed "Diagnosed" true "Diagnosed"
            (concat ("Found " ∷ show (length issues) ∷ " issue(s)" ∷ [])))
          "Complete" true "Complete" "Troubleshooting completed")

  -- From the update to Running on.
  unfoldable pub execute :
      Run S
      → TroubleshootRequest C
      → TroubleshootRequest C
      → Option (TroubleshootRequest C) × Outcome
  unfolding finish set_failed find_target_pods concat
  execute run stored tr =
      let original = record tr {
        status = record (tr.status) { phase = phase_running; started_at = some run.started };
      } in
      if run.updated
      then elim (find_target_pods run tr.spec) [
        | find_failed error ↦
            set_failed run original original (concat ("Failed to find target: " ∷ error ∷ []))
        | found_pods pods ↦ elim pods [
          | [] ↦ set_failed run original original "No pods found for target workload"
          | p ∷ ps ↦ finish run original (p ∷ ps)
        ]
      ]
      else (some stored, failure)

  unfoldable pub reconcile :
      Run S → Option (TroubleshootRequest C) → Option (TroubleshootRequest C) × Outcome
  unfolding handle_ttl_cleanup execute
  reconcile run none = (none, if run.fetched then done else failure)
  reconcile run (some stored) =
      let tr = record stored {
        status = record (stored.status) { observed_generation = stored.generation };
      } in
      let phase = stored.status.phase in
      if run.fetched
      then (if phase == phase_completed || phase == phase_failed
          then handle_ttl_cleanup run stored
          else (if phase == phase_running && is_set stored.status.started_at
              then (some stored, requeue_after (10 * second))
              else execute run stored tr))
      else (some stored, failure)
