-- ===== src/Checker/Plugin/Accepted.antt =====
-- internal/checker/plugin/checker.go against api/v1alpha1/checkplugin_webhook.go: a plugin that the
-- webhook accepts compiles.
use kube_assist_operator.Prelude.{
  ℕ, ◌+◌, ◌≡◌, ◌⊎◌, inl, inr, arith, refl, ap, eqb, length, Bool-cases, Option-cases, Sum-cases,
  Option, none, some, List, [], ◌∷◌, ◌++◌, map, String, string_eq, ◌==◌,
}
use kube_assist_operator.Prelude.Texts.{after}
use kube_assist_operator.Api.Errors.{FieldError, required, error_if, index, append-nil}
use kube_assist_operator.Api.CheckPluginWebhook.{
  CheckRule, condition_errors, message_errors, rule_errors, validate_check_plugin,
}
use kube_assist_operator.Checker.Plugin.{
  CompiledCheck, TargetGvr, PluginChecker, compile_rule, compile_message, compile_rules,
  new_plugin_checker,
}

both_nil : (xs ys : List FieldError) → xs ++ ys ≡ [] → (xs ≡ []) × (ys ≡ [])
both_nil xs ys = (append-nil xs ys (λ h. h, λ h. h) (λ h. h, λ h. h)).0

module _ {A P : Type 0} (compile : String → String ⊎ A) (program : A → String ⊎ P)
    (programs : (ast : A) → (p : P) × (program ast ≡ inr p)) where
  compile_rule-compiled :
      (expression : String) (ast : A)
      → compile expression ≡ inr ast
      → (p : P) × (compile_rule compile program expression ≡ inr p)
  unfolding compile_rule
  compile_rule-compiled expression ast checked =
      let made = programs ast in (made.0, rw (checked, made.1, compile_rule) refl)

  condition_errors-compiled :
      (path condition : String)
      → condition_errors compile path condition ≡ []
      → (p : P) × (compile_rule compile program condition ≡ inr p)
  unfolding condition_errors
  condition_errors-compiled path condition accepted = elim (Bool-cases (condition == "")) [
    | inl empty ↦ absurd (ground (arith, accepted, empty))
    | inr given ↦ elim (Sum-cases (compile condition)) [
      | inl (err, bad) ↦ absurd (ground (arith, accepted, given, bad))
      | inr (ast, good) ↦ compile_rule-compiled condition ast good
    ]
  ]

  message_errors-compiled :
      (path message : String)
      → message_errors compile path message ≡ []
      → (p : Option P) × (compile_message compile program message ≡ inr p)
  unfolding message_errors compile_message
  message_errors-compiled path message accepted = elim (Option-cases (after b'=' message)) [
    | inl plain ↦ (none, rw (plain, compile_message) refl)
    | inr (expression, dynamic) ↦ elim (Sum-cases (compile expression)) [
      | inl (err, bad) ↦ absurd (ground (arith, accepted, dynamic, bad))
      | inr (ast, good) ↦
          let made = compile_rule-compiled expression ast good in
          (some made.0, rw (dynamic, made.1, compile_message) refl)
    ]
  ]

  compile_rules-compiled :
      (quote : String → String) (i : ℕ) (rules : List CheckRule)
      → rule_errors compile i rules ≡ []
      → (cs : List (CompiledCheck P)) × ((compile_rules compile program quote rules ≡ inr cs)
          × (map CompiledCheck.rule cs ≡ rules))
  unfolding rule_errors compile_rules
  compile_rules-compiled quote i [] accepted = ([], (refl, refl))
  compile_rules-compiled quote i (rule ∷ rules) accepted =
      let path = index "spec.rules" i in
      let checks = both_nil (condition_errors compile path rule.condition) _ accepted in
      let more = both_nil (message_errors compile path rule.message) _ checks.1 in
      let condition = condition_errors-compiled path rule.condition checks.0 in
      let message = message_errors-compiled path rule.message more.0 in
      let rest = compile_rules-compiled quote (i + 1) rules more.1 in
      let c : CompiledCheck P = record {
        rule = rule;
        condition = condition.0;
        msg_prog = message.0;
      } in
      (
        c ∷ rest.0,
        (rw (condition.1, message.1, rest.1.0, compile_rules) refl, ap (λ rs. rule ∷ rs) rest.1.1),
      )

  -- A plugin that the webhook accepts becomes a checker with a compiled check for each of its rules,
  -- in their order, when every expression that is checked has a program.
  pub new_plugin_checker-accepted :
      (env_error : Option String) (quote : String → String) (name : String) (target : TargetGvr)
      (rules : List CheckRule)
      → validate_check_plugin compile env_error rules ≡ []
      → (checker : PluginChecker P) × ((new_plugin_checker compile program env_error quote name
              target rules
            ≡ inr checker)
          × (map CompiledCheck.rule checker.compiled ≡ rules))
  unfolding validate_check_plugin new_plugin_checker
  new_plugin_checker-accepted (some err) quote name target rules accepted =
      absurd (ground (arith, accepted))
  new_plugin_checker-accepted none quote name target rules accepted =
      let missing = required "spec.rules" "at least one rule is required" in
      let made =
        compile_rules-compiled quote 0 rules
          (both_nil (error_if (eqb (length rules) 0) missing) _ accepted).1 in
      (
        record { name = name; target = target; compiled = made.0 },
        (rw (made.1.0, new_plugin_checker) refl, made.1.1),
      )
