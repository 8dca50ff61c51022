-- ===== src/Api/TroubleshootWebhook.antt =====
-- api/v1alpha1/troubleshootrequest_webhook.go: `TroubleshootRequestCustomValidator`. No error is an
-- empty list.
pub mod Admission
use kube_assist_operator.Prelude.{
  ℕ, ◌+◌, ◌≡◌, ◌≢◌, ◌↔◌, ◌⊎◌, inl, inr, arith, refl, Bool, Bool-cases, not, ◌&&◌, ◌||◌, string_eq,
  ◌==◌, true, false, Option, none, some, List, [], ◌∷◌, ◌++◌, String, if◌then◌else◌, contains, All,
}
use kube_assist_operator.Controller.Troubleshoot.{
  TroubleshootRequest, Run, Found, find_failed, find_target_pods, kinds_with_selector,
}
use kube_assist_operator.Api.Errors.{
  FieldError, required, not_supported, forbidden, index, error_if, ttl_errors, IsLifetime,
  error_if-nil, append-nil, empty-nil, changed-nil, ttl_errors-nil, unsupported-nil,
}

-- The keys of the maps of allowed values.
abbrev pub valid_target_kinds : List String
valid_target_kinds = "Deployment" ∷ "StatefulSet" ∷ "DaemonSet" ∷ "Pod" ∷ "ReplicaSet" ∷ []

abbrev pub valid_actions : List String
valid_actions = "diagnose" ∷ "logs" ∷ "events" ∷ "describe" ∷ "all" ∷ []

-- The loop over the actions, from an index on.
unfoldable pub action_errors : ℕ → List String → List FieldError
unfolding error_if index contains
action_errors i [] = []
action_errors i (action ∷ actions) =
    error_if (not (contains action valid_actions)) (not_supported (index "spec.actions" i) action)
    ++ action_errors (i + 1) actions

unfoldable pub validate_create : {C : Type 0} → TroubleshootRequest C → List FieldError
unfolding error_if action_errors ttl_errors contains
validate_create tr =
    error_if (tr.spec.target_name == "") (required "spec.target.name" "target name is required")
    ++ (error_if
          (not (tr.spec.target_kind == "") && not (contains tr.spec.target_kind valid_target_kinds))
          (not_supported "spec.target.kind" tr.spec.target_kind)
        ++ (action_errors 0 tr.spec.actions ++ ttl_errors tr.spec.ttl_seconds_after_finished))

unfoldable pub validate_update :
    {C : Type 0} → TroubleshootRequest C → TroubleshootRequest C → List FieldError
unfolding error_if
validate_update old new =
    error_if (not (new.spec.target_name == old.spec.target_name))
      (forbidden "spec.target.name" "field is immutable")
    ++ error_if (not (new.spec.target_kind == old.spec.target_kind))
        (forbidden "spec.target.kind" "field is immutable")

abbrev pub IsAction : String → Type 0
IsAction a = contains a valid_actions ≡ true

-- What a request must be like at its creation.
abbrev pub IsCreatable : {C : Type 0} → TroubleshootRequest C → Type 0
IsCreatable tr =
    (tr.spec.target_name ≢ "")
    × (((tr.spec.target_kind ≡ "") ⊎ (contains tr.spec.target_kind valid_target_kinds ≡ true))
        × (All IsAction tr.spec.actions × IsLifetime tr.spec.ttl_seconds_after_finished))

valid-nil : (action : String) → (not (contains action valid_actions) ≡ false) ↔ IsAction action
valid-nil action = (λ h. ground (arith, h), λ h. ground (arith, h))

action_errors-nil :
    (i : ℕ) (actions : List String) → (action_errors i actions ≡ []) ↔ All IsAction actions
unfolding action_errors
action_errors-nil i [] = (λ h. tt, λ h. refl)
action_errors-nil i (a ∷ as_) =
    append-nil _ _ (error_if-nil _ _ (valid-nil a)) (action_errors-nil (i + 1) as_)

module _ {C : Type 0} where
  -- The webhook accepts a request at its creation exactly when the target has a name, the kind is
  -- empty or one of the five that are supported, every action is one of the five, and the lifetime
  -- is not set or not negative.
  pub validate_create-nil :
      (tr : TroubleshootRequest C) → (validate_create tr ≡ []) ↔ IsCreatable tr
  unfolding validate_create
  validate_create-nil tr = append-nil _ _ (error_if-nil _ _ (empty-nil tr.spec.target_name)) (
      append-nil _ _ (error_if-nil _ _ (unsupported-nil tr.spec.target_kind _)) (
        append-nil _ _ (action_errors-nil 0 tr.spec.actions)
          (ttl_errors-nil tr.spec.ttl_seconds_after_finished)))

  validate_update-nil :
      (old new : TroubleshootRequest C)
      → (validate_update old new ≡ []) ↔ (
          (new.spec.target_name ≡ old.spec.target_name)
          × (new.spec.target_kind ≡ old.spec.target_kind))
  unfolding validate_update
  validate_update-nil old new =
      append-nil _ _ (error_if-nil _ _ (changed-nil _ _)) (error_if-nil _ _ (changed-nil _ _))
