-- ===== src/Controller/Notify.antt =====
-- internal/controller/teamhealthrequest_controller.go: `dispatchNotifications` and what it calls. The
-- goroutine's work is a function from what it reads to the notifications that it hands to a
-- notifier, in their order; the health score, a float, is left out. `url.Parse`, `TrimSpace` and the
-- secrets of the API server are parameters.
pub mod Policy
mod Tests
use kube_assist_operator.Prelude.{
  ℕ, ◌+◌, ◌≡◌, Bool, true, false, not, ◌&&◌, ◌||◌, Option, none, some, List, [], ◌∷◌, ◌++◌, String,
  string_eq, ◌==◌, ltb, if◌then◌else◌, contains, lookup,
}
use kube_assist_operator.Api.TeamHealth.{SecretKeyRef, NotificationTarget, TeamHealthRequest, Url}
use kube_assist_operator.Api.TeamHealthWebhook.{http_allowed}

pub record Notification : Type 0 where
  pub summary : String
  pub total_healthy : ℕ
  pub total_issues : ℕ
  pub critical_count : ℕ
  pub warning_count : ℕ
  pub request_name : String
  pub namespace : String

pub record Sent : Type 0 where
  pub target : NotificationTarget
  pub webhook_url : String
  pub notification : Notification

abbrev pub notifier_types : List String
notifier_types = "webhook" ∷ "slack" ∷ "pagerduty" ∷ "teams" ∷ []

unfoldable pub severity_met : String → ℕ → ℕ → Bool
severity_met threshold critical warning =
    if threshold == "Critical"
    then ltb 0 critical
    else (if threshold == "Warning" then ltb 0 critical || ltb 0 warning else true)

-- Whether there is no error.
unfoldable pub validate_notification_url : (String → Option Url) → Bool → String → Bool
validate_notification_url parse allow_http raw = elim (parse raw) [
  | none ↦ false
  | some u ↦
      if u.hostname == ""
      then false
      else (u.scheme == "https" || (u.scheme == "http" && allow_http))
]

-- `string(secret.Data[key])`: a missing key gives the empty text.
unfoldable pub data_at : String → List (String × String) → String
unfolding lookup
data_at key m = elim (lookup key m) [ none ↦ "" | some v ↦ v ]

-- Secrets are read by namespace and name. `configured` is `NotificationSecretNamespace`.
module _ {S C : Type 0} (parse : String → Option Url) (trim_space : String → String)
    (get_secret : String → String → Option (List (String × String))) (configured : String)
    (hr : TeamHealthRequest S C) where
  abbrev pub secret_namespace : String
  secret_namespace = if trim_space configured == "" then hr.namespace else trim_space configured

  -- The URL of a target; empty where it is skipped.
  unfoldable pub webhook_url_of : NotificationTarget → String
  unfolding data_at
  webhook_url_of target =
      if target.url == ""
      then elim (target.secret_ref) [
        | none ↦ ""
        | some ref ↦
            if not (configured == "") && not (hr.namespace == secret_namespace)
            then ""
            else elim (get_secret secret_namespace ref.name) [
              | none ↦ ""
              | some m ↦ data_at ref.key m
            ]
      ]
      else target.url

  -- One turn of the loop.
  unfoldable pub dispatch_target : Notification → NotificationTarget → List Sent
  unfolding severity_met webhook_url_of validate_notification_url http_allowed contains
  dispatch_target n target =
      let url = webhook_url_of target in
      if not target.on_completion
      then []
      else (if not (target.on_severity == "")
            && not (severity_met target.on_severity n.critical_count n.warning_count)
          then []
          else (if url == ""
              then []
              else (if not (target.type == "pagerduty")
                    && not (validate_notification_url parse (http_allowed hr.annotations) url)
                  then []
                  else (if contains target.type notifier_types
                      then record { target = target; webhook_url = url; notification = n } ∷ []
                      else []))))

  unfoldable pub dispatch_notifications : Notification → List NotificationTarget → List Sent
  unfolding dispatch_target
  dispatch_notifications n [] = []
  dispatch_notifications n (target ∷ targets) =
      dispatch_target n target ++ dispatch_notifications n targets
