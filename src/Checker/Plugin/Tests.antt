-- ===== src/Checker/Plugin/Tests.antt =====
-- A plugin with two rules over objects that are texts; an expression is true of the text it is.
use kube_assist_operator.Prelude.{
  ◌≡◌, ◌↔◌, ◌⊎◌, inl, inr, refl, true, none, some, List, [], ◌∷◌, map, String, string_eq, ◌==◌,
  if◌then◌else◌,
}
use kube_assist_operator.Prelude.Texts.{after, concat}
use kube_assist_operator.Prelude.Numbers.{show}
use kube_assist_operator.Causal.Types.{Issue}
use kube_assist_operator.Api.CheckPluginWebhook.{CheckRule, validate_check_plugin}
use kube_assist_operator.Checker.Plugin.{
  CelValue, bool_value, CompiledCheck, TargetGvr, PluginChecker, Item, new_plugin_checker,
  check_plugin,
}
use kube_assist_operator.Checker.Plugin.Accepted.{new_plugin_checker-accepted}
use kube_assist_operator.Checker.Plugin.Counts.{count_clean, some_listed, check_plugin-counts}

abbrev compile : String → String ⊎ String
compile s = if s == "(" then inl "syntax error" else inr s

abbrev program : String → String ⊎ String
program s = inr s

abbrev rules : List CheckRule
rules =
    record { name = "down"; condition = "broken"; severity = "Critical"; message = "it is down" }
    ∷ record { name = "odd"; condition = "unknown"; severity = "Odd"; message = "=text" }
    ∷ []

abbrev target : TargetGvr
target = record { group = "apps"; version = "v1"; resource = "deployments"; kind = "Deployment" }

abbrev checker : PluginChecker String
checker = record {
  name = "deploy";
  target = target;
  compiled =
      record {
        rule = record {
          name = "down";
          condition = "broken";
          severity = "Critical";
          message = "it is down";
        };
        condition = "broken";
        msg_prog = none;
      }
      ∷ record {
        rule = record { name = "odd"; condition = "unknown"; severity = "Odd"; message = "=text" };
        condition = "unknown";
        msg_prog = some "text";
      }
      ∷ [];
}

abbrev run_program : String → String → String ⊎ CelValue
run_program p object =
    if object == "unknown" then inl "no such key" else inr (bool_value (p == object))

abbrev list_items : String → String ⊎ List (Item String)
list_items ns =
    if ns == "shop"
    then inr (
        record { name = "api"; object = "broken" }
        ∷ record { name = "web"; object = "fine" }
        ∷ record { name = "old"; object = "unknown" }
        ∷ [])
    else inl "forbidden"

abbrev quote : String → String
quote s = s

new_plugin_checker-accepted_example :
    (made : PluginChecker String) × ((new_plugin_checker compile program none quote "deploy" target
          rules
        ≡ inr made)
      × (map CompiledCheck.rule made.compiled ≡ rules))
unfolding validate_check_plugin after
new_plugin_checker-accepted_example =
    new_plugin_checker-accepted compile program (λ ast. (ast, refl)) none quote "deploy" target
      rules refl

check_plugin-counts_example :
    let result = check_plugin run_program quote list_items checker ("shop" ∷ "secret" ∷ []) in
    (result.healthy ≡ count_clean run_program quote list_items checker ("shop" ∷ "secret" ∷ []))
    × ((result.error ≡ none)
        ↔ (some_listed run_program quote list_items checker ("shop" ∷ "secret" ∷ []) ≡ true))
check_plugin-counts_example =
    check_plugin-counts run_program quote list_items checker ("shop" ∷ "secret" ∷ [])

unknown_counts_as_healthy :
    let result = check_plugin run_program quote list_items checker ("shop" ∷ []) in
    (result.healthy ≡ 2)
    × (map (λ i. Issue.type i) result.issues
        ≡ "plugin:deploy:down" ∷ "plugin:deploy:eval-error" ∷ "plugin:deploy:eval-error" ∷ [])
unfolding check_plugin concat
unknown_counts_as_healthy = (refl, refl)

no_namespaces_is_an_error :
    let result = check_plugin run_program quote list_items checker [] in
    result.error ≡ some "all 0 namespace(s) failed: []"
unfolding check_plugin concat show
no_namespaces_is_an_error = refl
