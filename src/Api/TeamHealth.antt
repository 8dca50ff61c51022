-- ===== src/Api/TeamHealth.antt =====
-- api/v1alpha1/teamhealthrequest_types.go: the request for a health check. `S` is the type of label
-- selectors and `C` of the list of conditions. Of the checkers' configuration only what the
-- controller reads is here.
use kube_assist_operator.Prelude.{ℕ, Bool, Option, List, String}
use kube_assist_operator.Prelude.Numbers.{ℤ}
use kube_assist_operator.Controller.Diagnose.{DiagnosticIssue}

pub record ScopeConfig (S : Type 0) : Type 0 where
  pub namespaces : List String
  pub namespace_selector : Option S
  pub current_namespace_only : Bool

pub record SecretKeyRef : Type 0 where
  pub name : String
  pub key : String

pub record NotificationTarget : Type 0 where
  pub type : String
  pub url : String
  pub secret_ref : Option SecretKeyRef
  pub on_completion : Bool
  pub on_severity : String

-- `restart_threshold` is that of `config.workloads`, where this is set.
pub record TeamHealthRequestSpec (S : Type 0) : Type 0 where
  pub scope : ScopeConfig S
  pub checks : List String
  pub restart_threshold : Option ℤ
  pub ttl_seconds_after_finished : Option ℤ
  pub notify : List NotificationTarget

pub record CheckerResult : Type 0 where
  pub healthy : ℕ
  pub issues : List DiagnosticIssue
  pub error : String

pub record TeamHealthRequestStatus (C : Type 0) : Type 0 where
  pub observed_generation : ℕ
  pub phase : String
  pub summary : String
  pub results : List (String × CheckerResult)
  pub namespaces_checked : List String
  pub last_check_time : Option ℕ
  pub started_at : Option ℕ
  pub completed_at : Option ℕ
  pub conditions : C

pub record TeamHealthRequest (S C : Type 0) : Type 0 where
  pub name : String
  pub namespace : String
  pub generation : ℕ
  pub annotations : List (String × String)
  pub spec : TeamHealthRequestSpec S
  pub status : TeamHealthRequestStatus C

-- What `url.Parse` gives, as far as it is read.
pub record Url : Type 0 where
  pub scheme : String
  pub hostname : String

abbrev pub allow_http_webhooks_annotation : String
allow_http_webhooks_annotation = "assist.cluster.local/allow-http-webhooks"
