-- ===== src/Api/CheckPluginWebhook.antt =====
-- api/v1alpha1/checkplugin_webhook.go: `CheckPluginCustomValidator`. Whether the CEL library makes an
-- environment, and what it gives for an expression, an error or the checked
-- expression, are parameters; no error is an empty list.
use kube_assist_operator.Prelude.{
  ℕ, ◌+◌, ◌⊎◌, inl, inr, string_eq, ◌==◌, Option, none, some, List, [], ◌∷◌, ◌++◌, String,
  if◌then◌else◌, eqb, length,
}
use kube_assist_operator.Prelude.Texts.{concat, after}
use kube_assist_operator.Api.Errors.{FieldError, required, invalid, internal_error, index, error_if}

pub record CheckRule : Type 0 where
  pub name : String
  pub condition : String
  pub severity : String
  pub message : String

module _ {A : Type 0} (compile : String → String ⊎ A) where
  unfoldable pub condition_errors : String → String → List FieldError
  unfolding concat
  condition_errors path condition =
      if condition == ""
      then required (concat (path ∷ ".condition" ∷ [])) "condition is required" ∷ []
      else elim (compile condition) [
        | inr ast ↦ []
        | inl err ↦
            invalid (concat (path ∷ ".condition" ∷ [])) condition
              (concat ("invalid CEL expression: " ∷ err ∷ []))
            ∷ []
      ]

  -- A message that starts with `=` is an expression.
  unfoldable pub message_errors : String → String → List FieldError
  unfolding concat after
  message_errors path message = elim (after b'=' message) [
    | none ↦ []
    | some expression ↦ elim (compile expression) [
      | inr ast ↦ []
      | inl err ↦
          invalid (concat (path ∷ ".message" ∷ [])) message
            (concat ("invalid CEL message expression: " ∷ err ∷ []))
          ∷ []
    ]
  ]

  unfoldable pub rule_errors : ℕ → List CheckRule → List FieldError
  unfolding condition_errors message_errors index
  rule_errors i [] = []
  rule_errors i (rule ∷ rules) =
      condition_errors (index "spec.rules" i) rule.condition
      ++ (message_errors (index "spec.rules" i) rule.message ++ rule_errors (i + 1) rules)

  -- `env_error` is the error of `cel.NewEnv`.
  unfoldable pub validate_check_plugin : Option String → List CheckRule → List FieldError
  unfolding error_if rule_errors concat
  validate_check_plugin env_error rules =
      error_if (eqb (length rules) 0) (required "spec.rules" "at least one rule is required")
      ++ elim env_error [
        | none ↦ rule_errors 0 rules
        | some err ↦
            internal_error "spec" (concat ("failed to create CEL environment: " ∷ err ∷ [])) ∷ []
      ]
