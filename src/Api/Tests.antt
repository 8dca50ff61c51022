-- ===== src/Api/Tests.antt =====
-- Requests that the webhooks let in.
use kube_assist_operator.Prelude.{
  ◌≡◌, ◌↔◌, refl, true, false, Option, none, some, List, [], ◌∷◌, String, string_eq, ◌==◌,
  if◌then◌else◌, contains, lookup,
}
use kube_assist_operator.Prelude.Numbers.{pos, show}
use kube_assist_operator.Controller.Troubleshoot.{TroubleshootRequest, Run, find_target_pods}
use kube_assist_operator.Api.Errors.{not_supported, invalid, index}
use kube_assist_operator.Api.TeamHealth.{TeamHealthRequest, Url}
use kube_assist_operator.Api.TroubleshootWebhook.{validate_create, validate_update, action_errors}
use kube_assist_operator.Api.TroubleshootWebhook.Admission.{
  created, updated, find_target_pods-Admitted,
}
use kube_assist_operator.Api.TeamHealthWebhook.{validate_spec}
use kube_assist_operator.Api.TeamHealthWebhook.Accepted.{IsAccepted, validate_spec-nil}

abbrev request : String → TroubleshootRequest (List String)
request action = record {
  name = "look";
  generation = 1;
  spec = record {
    target_kind = "ReplicaSet";
    target_name = "api";
    actions = "diagnose" ∷ action ∷ [];
    tail_lines = 100;
    ttl_seconds_after_finished = none;
  };
  status = record {
    observed_generation = 0;
    phase = "";
    summary = "";
    issues = [];
    logs_config_map = "";
    events_config_map = "";
    started_at = none;
    completed_at = none;
    conditions = [];
  };
}

unknown_action :
    validate_create (request "restart") ≡ not_supported "spec.actions[1]" "restart" ∷ []
unfolding validate_create action_errors contains index show
unknown_action = refl

-- The API server does not find the workload.
abbrev missing : Run String
missing = record {
  fetched = true;
  started = 5;
  updated = true;
  get_selector = λ kind name. none;
  get_pod = λ name. none;
  list_matching = λ selector. none;
  find_error = "replicasets \"api\" not found";
  logs = none;
  logs_error = "";
  events = none;
  events_error = "";
  finished = 9;
  patched = true;
  deleted = true;
}

find_target_pods-Admitted_example : missing.find_error ≡ missing.find_error
unfolding validate_create validate_update action_errors contains find_target_pods
find_target_pods-Admitted_example =
    find_target_pods-Admitted missing (request "restart") missing.find_error
      (updated (request "logs") (request "restart") (created (request "logs") refl) refl) refl

abbrev parse : String → Option Url
parse url =
    if url == "http://plain.example"
    then some (record { scheme = "http"; hostname = "plain.example" })
    else (if url == "R0UT1NGKEY" then some (record { scheme = ""; hostname = "" }) else none)

abbrev notifies : List (String × String) → String → String → TeamHealthRequest String (List String)
notifies annotations type url = record {
  name = "nightly";
  namespace = "shop";
  generation = 1;
  annotations = annotations;
  spec = record {
    scope = record {
      namespaces = "shop" ∷ "cart" ∷ [];
      namespace_selector = none;
      current_namespace_only = false;
    };
    checks = "pvcs" ∷ [];
    restart_threshold = none;
    ttl_seconds_after_finished = some (pos 60);
    notify =
        record { type = type; url = url; secret_ref = none; on_completion = true; on_severity = "" }
        ∷ [];
  };
  status = record {
    observed_generation = 0;
    phase = "";
    summary = "";
    results = [];
    namespaces_checked = [];
    last_check_time = none;
    started_at = none;
    completed_at = none;
    conditions = [];
  };
}

abbrev plain_http : TeamHealthRequest String (List String)
plain_http =
    notifies (("assist.cluster.local/allow-http-webhooks", "true") ∷ []) "webhook"
      "http://plain.example"

plain_http_accepted : validate_spec parse plain_http ≡ []
unfolding validate_spec lookup contains
plain_http_accepted = refl

routing_key_refused :
    validate_spec parse (notifies [] "pagerduty" "R0UT1NGKEY")
    ≡ invalid "spec.notify[0].url" "R0UT1NGKEY"
        "webhook URL must use HTTPS (annotate with assist.cluster.local/allow-http-webhooks=true to override)"
      ∷ []
unfolding validate_spec lookup contains index show
routing_key_refused = refl

validate_spec-nil_example : (validate_spec parse plain_http ≡ []) ↔ IsAccepted parse plain_http
validate_spec-nil_example = validate_spec-nil parse plain_http
