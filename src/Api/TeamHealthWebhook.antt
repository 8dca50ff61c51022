-- ===== src/Api/TeamHealthWebhook.antt =====
-- api/v1alpha1/teamhealthrequest_webhook.go: `TeamHealthRequestCustomValidator`. `url.Parse` is a
-- parameter. No error is an empty list.
pub mod Accepted
use kube_assist_operator.Prelude.{
  ℕ, ◌+◌, ◌≡◌, ◌≢◌, ◌↔◌, ◌⊎◌, inl, inr, arith, refl, Bool, Bool-cases, not, ◌&&◌, ◌||◌, string_eq,
  ◌==◌, true, false, Option, none, some, List, [], ◌∷◌, ◌++◌, String, if◌then◌else◌, contains,
  lookup, eqb, length, All, Distinct,
}
use kube_assist_operator.Prelude.Texts.{concat}
use kube_assist_operator.Api.Errors.{
  FieldError, required, not_supported, invalid, forbidden, duplicate, index, error_if, ttl_errors,
}
use kube_assist_operator.Api.TeamHealth.{
  ScopeConfig, SecretKeyRef, NotificationTarget, TeamHealthRequest, Url,
  allow_http_webhooks_annotation,
}

abbrev pub valid_checker_names : List String
valid_checker_names =
    "workloads" ∷ "helmreleases" ∷ "kustomizations" ∷ "gitrepositories" ∷ "secrets" ∷ "pvcs"
    ∷ "quotas" ∷ "networkpolicies" ∷ []

unfoldable pub check_errors : ℕ → List String → List FieldError
unfolding error_if index contains
check_errors i [] = []
check_errors i (check ∷ checks) =
    error_if (not (contains check valid_checker_names))
      (not_supported (index "spec.checks" i) check)
    ++ check_errors (i + 1) checks

-- The annotation that permits HTTP is "true".
unfoldable pub http_allowed : List (String × String) → Bool
unfolding lookup
http_allowed annotations = elim (lookup allow_http_webhooks_annotation annotations) [
  | none ↦ false
  | some v ↦ v == "true"
]

abbrev pub is_some : {A : Type 0} → Option A → Bool
is_some none = false
is_some (some a) = true

module _ (parse : String → Option Url) where
  unfoldable pub url_errors : Bool → String → String → List FieldError
  unfolding concat error_if
  url_errors allowed path url = elim (parse url) [
    | none ↦ invalid (concat (path ∷ ".url" ∷ [])) url "invalid URL" ∷ []
    | some u ↦ error_if (not (u.scheme == "https") && not allowed) (
        invalid (concat (path ∷ ".url" ∷ [])) url
          "webhook URL must use HTTPS (annotate with assist.cluster.local/allow-http-webhooks=true to override)")
  ]

  unfoldable pub target_errors : Bool → String → NotificationTarget → List FieldError
  unfolding error_if url_errors
  target_errors allowed path target =
      error_if (target.url == "" && not (is_some target.secret_ref))
        (required path "must specify url or secretRef")
      ++ (error_if (not (target.url == "") && is_some target.secret_ref)
            (forbidden path "cannot specify both url and secretRef")
          ++ (if target.url == "" then [] else url_errors allowed path target.url))

  unfoldable pub notify_errors : Bool → ℕ → List NotificationTarget → List FieldError
  unfolding target_errors index
  notify_errors allowed i [] = []
  notify_errors allowed i (target ∷ targets) =
      target_errors allowed (index "spec.notify" i) target ++ notify_errors allowed (i + 1) targets

-- The loop that looks for duplicates, with the namespaces seen.
unfoldable pub duplicate_errors : List String → ℕ → List String → List FieldError
unfolding error_if index contains
duplicate_errors seen i [] = []
duplicate_errors seen i (ns ∷ nss) =
    error_if (contains ns seen) (duplicate (index "spec.scope.namespaces" i) ns)
    ++ duplicate_errors (ns ∷ seen) (i + 1) nss

unfoldable pub scope_errors : {S : Type 0} → ScopeConfig S → List FieldError
unfolding error_if duplicate_errors
scope_errors scope =
    error_if (scope.current_namespace_only && not (eqb (length scope.namespaces) 0))
      (forbidden "spec.scope.namespaces" "cannot set namespaces when currentNamespaceOnly is true")
    ++ (error_if (scope.current_namespace_only && is_some scope.namespace_selector) (
          forbidden "spec.scope.namespaceSelector"
            "cannot set namespaceSelector when currentNamespaceOnly is true")
        ++ duplicate_errors [] 0 scope.namespaces)

module _ {S C : Type 0} (parse : String → Option Url) where
  unfoldable pub validate_spec : TeamHealthRequest S C → List FieldError
  unfolding check_errors ttl_errors notify_errors scope_errors http_allowed
  validate_spec hr =
      check_errors 0 hr.spec.checks
      ++ (ttl_errors hr.spec.ttl_seconds_after_finished
          ++ (notify_errors parse (http_allowed hr.annotations) 0 hr.spec.notify
              ++ scope_errors hr.spec.scope))

  -- `ValidateUpdate`; `ValidateCreate` is the validation of the spec.
  unfoldable pub validate_team_update :
      TeamHealthRequest S C → TeamHealthRequest S C → List FieldError
  unfolding validate_spec error_if
  validate_team_update old new =
      validate_spec new
      ++ error_if
          (if old.spec.scope.current_namespace_only
            then not new.spec.scope.current_namespace_only
            else new.spec.scope.current_namespace_only)
          (forbidden "spec.scope.currentNamespaceOnly" "field is immutable")
