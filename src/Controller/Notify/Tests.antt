-- ===== src/Controller/Notify/Tests.antt =====
-- A request with a target that names a secret and one with a plain HTTP URL.
use kube_assist_operator.Prelude.{
  ◌≡◌, refl, true, false, Option, none, some, List, [], ◌∷◌, map, String, string_eq, ◌==◌,
  if◌then◌else◌, lookup, contains, All,
}
use kube_assist_operator.Api.TeamHealth.{NotificationTarget, TeamHealthRequest, Url}
use kube_assist_operator.Controller.Notify.{Notification, Sent, dispatch_notifications}
use kube_assist_operator.Controller.Notify.Policy.{IsPermitted, dispatch_notifications-Permitted}

abbrev parse : String → Option Url
parse url =
    if url == "https://hooks.example/x"
    then some (record { scheme = "https"; hostname = "hooks.example" })
    else (if url == "http://plain.example"
        then some (record { scheme = "http"; hostname = "plain.example" })
        else none)

abbrev trim_space : String → String
trim_space s = if s == " " then "" else s

abbrev get_secret : String → String → Option (List (String × String))
get_secret ns name = if ns == "shop" then some (("url", "https://hooks.example/x") ∷ []) else none

abbrev plain : NotificationTarget
plain = record {
  type = "webhook";
  url = "http://plain.example";
  secret_ref = none;
  on_completion = true;
  on_severity = "";
}

abbrev secret : NotificationTarget
secret = record {
  type = "teams";
  url = "";
  secret_ref = some (record { name = "hooks"; key = "url" });
  on_completion = true;
  on_severity = "Warning";
}

abbrev targets : List NotificationTarget
targets = plain ∷ secret ∷ []

abbrev request : TeamHealthRequest String (List String)
request = record {
  name = "nightly";
  namespace = "shop";
  generation = 1;
  annotations = [];
  spec = record {
    scope = record { namespaces = []; namespace_selector = none; current_namespace_only = false };
    checks = [];
    restart_threshold = none;
    ttl_seconds_after_finished = none;
    notify = targets;
  };
  status = record {
    observed_generation = 0;
    phase = "Completed";
    summary = "";
    results = [];
    namespaces_checked = [];
    last_check_time = none;
    started_at = none;
    completed_at = none;
    conditions = [];
  };
}

abbrev notification : Notification
notification = record {
  summary = "";
  total_healthy = 4;
  total_issues = 1;
  critical_count = 0;
  warning_count = 1;
  request_name = "nightly";
  namespace = "shop";
}

only_the_secret :
    map
      (λ s. Sent.webhook_url s)
      (dispatch_notifications parse trim_space get_secret " " request notification targets)
    ≡ "https://hooks.example/x" ∷ []
unfolding dispatch_notifications lookup contains
only_the_secret = refl

dispatch_notifications-Permitted_example :
    All
      (IsPermitted parse trim_space get_secret " " request)
      (dispatch_notifications parse trim_space get_secret " " request notification targets)
dispatch_notifications-Permitted_example =
    dispatch_notifications-Permitted parse trim_space get_secret " " request notification targets
      refl
