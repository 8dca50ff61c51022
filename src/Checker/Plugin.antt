-- ===== src/Checker/Plugin.antt =====
-- internal/checker/plugin: the checker of a CheckPlugin. The CEL library is a set of parameters: it
-- checks an expression (`compile`), makes a program of it (`program`), and runs this on an object
-- (`run_program`), each with an error; `quote` is the format `%q`. A Kubernetes object is of type `O`.
pub mod Accepted
pub mod Counts
mod Tests
use kube_assist_operator.Prelude.{
  ℕ, ◌+◌, ◌⊎◌, inl, inr, Bool, true, false, ◌||◌, Option, none, some, List, [], ◌∷◌, ◌++◌, String,
  string_eq, ◌==◌, eqb, if◌then◌else◌, length, contains,
}
use kube_assist_operator.Prelude.Texts.{concat, after}
use kube_assist_operator.Prelude.Numbers.{show}
use kube_assist_operator.Causal.Types.{
  Issue, CheckResult, severity_critical, severity_warning, severity_info,
}
use kube_assist_operator.Api.CheckPluginWebhook.{CheckRule}

-- `out.Value()` of a run, by its Go type.
pub data CelValue : Type 0 where
  bool_value : Bool → CelValue
  string_value : String → CelValue
  other_value : (type : String) → CelValue

abbrev pub type_name : CelValue → String
type_name (bool_value b) = "bool"
type_name (string_value s) = "string"
type_name (other_value type) = type

pub record CompiledCheck (P : Type 0) : Type 0 where
  pub rule : CheckRule
  pub condition : P
  pub msg_prog : Option P

pub record TargetGvr : Type 0 where
  pub group : String
  pub version : String
  pub resource : String
  pub kind : String

pub record PluginChecker (P : Type 0) : Type 0 where
  pub name : String
  pub target : TargetGvr
  pub compiled : List (CompiledCheck P)

pub record Item (O : Type 0) : Type 0 where
  pub name : String
  pub object : O

module _ {A P : Type 0} (compile : String → String ⊎ A) (program : A → String ⊎ P) where
  -- `Evaluator.Compile`
  unfoldable pub compile_rule : String → String ⊎ P
  unfolding concat
  compile_rule expression = elim (compile expression) [
    | inl err ↦ inl (concat ("CEL compilation error: " ∷ err ∷ []))
    | inr ast ↦ elim (program ast) [
      | inl err ↦ inl (concat ("CEL program creation error: " ∷ err ∷ []))
      | inr p ↦ inr p
    ]
  ]

  -- The program of a message that is an expression.
  unfoldable pub compile_message : String → String ⊎ Option P
  unfolding after compile_rule
  compile_message message = elim (after b'=' message) [
    | none ↦ inr none
    | some expression ↦ elim (compile_rule expression) [ inl err ↦ inl err | inr p ↦ inr (some p) ]
  ]

  -- The loop of `NewPluginChecker`.
  unfoldable pub compile_rules :
      (String → String) → List CheckRule → String ⊎ List (CompiledCheck P)
  unfolding compile_rule compile_message concat
  compile_rules quote [] = inr []
  compile_rules quote (rule ∷ rules) =
      let rest = compile_rules quote rules in
      elim (compile_rule rule.condition) [
        | inl err ↦ inl (concat ("rule " ∷ quote rule.name ∷ ": " ∷ err ∷ []))
        | inr p ↦ elim (compile_message rule.message) [
          | inl err ↦ inl (concat ("rule " ∷ quote rule.name ∷ " message: " ∷ err ∷ []))
          | inr msg ↦ elim rest [
            | inl err ↦ inl err
            | inr cs ↦ inr (record { rule = rule; condition = p; msg_prog = msg } ∷ cs)
          ]
        ]
      ]

  -- `env_error` is the error of `cel.NewEnv`.
  unfoldable pub new_plugin_checker :
      Option String
      → (String → String)
      → String
      → TargetGvr
      → List CheckRule
      → String ⊎ PluginChecker P
  unfolding compile_rules concat
  new_plugin_checker env_error quote name target rules = elim env_error [
    | some err ↦
        inl (concat ("failed to create evaluator: failed to create CEL environment: " ∷ err ∷ []))
    | none ↦ elim (compile_rules quote rules) [
      | inl err ↦ inl err
      | inr cs ↦ inr (record { name = name; target = target; compiled = cs })
    ]
  ]

unfoldable pub is_valid_severity : String → Bool
is_valid_severity s = s == severity_critical || (s == severity_warning || s == severity_info)

-- `%v` of a list of texts.
unfoldable pub spaced : List String → String
unfolding concat
spaced [] = ""
spaced (s ∷ []) = s
spaced (s ∷ t ∷ ts) = concat (s ∷ " " ∷ spaced (t ∷ ts) ∷ [])

module _ {P O : Type 0} (run_program : P → O → String ⊎ CelValue) where
  unfoldable pub evaluate : P → O → String ⊎ Bool
  unfolding concat
  evaluate p object = elim (run_program p object) [
    | inl err ↦ inl (concat ("CEL evaluation error: " ∷ err ∷ []))
    | inr (bool_value b) ↦ inr b
    | inr v ↦ inl (concat ("CEL expression did not return bool, got " ∷ type_name v ∷ []))
  ]

  unfoldable pub evaluate_string : P → O → String ⊎ String
  unfolding concat
  evaluate_string p object = elim (run_program p object) [
    | inl err ↦ inl (concat ("CEL evaluation error: " ∷ err ∷ []))
    | inr (string_value s) ↦ inr s
    | inr v ↦ inl (concat ("CEL expression did not return string, got " ∷ type_name v ∷ []))
  ]

  unfoldable pub message_of : (String → String) → CompiledCheck P → O → String
  unfolding evaluate_string concat
  message_of quote cc object = elim (cc.msg_prog) [
    | none ↦ cc.rule.message
    | some p ↦ elim (evaluate_string p object) [
      | inr msg ↦ msg
      | inl err ↦ concat (
          "Rule " ∷ quote cc.rule.name ∷ " triggered (message evaluation failed: " ∷ err ∷ ")" ∷ [])
    ]
  ]

  -- `hasIssue` after the loop over the rules.
  unfoldable pub has_issue : O → List (CompiledCheck P) → Bool
  unfolding evaluate
  has_issue object [] = false
  has_issue object (cc ∷ ccs) =
      elim (evaluate cc.condition object) [ inl err ↦ false | inr matched ↦ matched ]
      || has_issue object ccs

  module _ (quote : String → String) (checker : PluginChecker P) (ns : String) where
    -- The issue of a rule on an item.
    unfoldable pub rule_issues : Item O → CompiledCheck P → List Issue
    unfolding evaluate message_of is_valid_severity concat
    rule_issues item cc =
        let resource = concat (checker.target.resource ∷ "/" ∷ item.name ∷ []) in
        elim (evaluate cc.condition item.object) [
          | inl err ↦
              record {
                type = concat ("plugin:" ∷ checker.name ∷ ":eval-error" ∷ []);
                severity = severity_warning;
                resource = resource;
                namespace = ns;
                message =
                    concat ("CEL rule " ∷ quote cc.rule.name ∷ " evaluation failed: " ∷ err ∷ []);
                suggestion = "";
                metadata = [];
              }
              ∷ []
          | inr matched ↦
              if matched
              then record {
                type = concat ("plugin:" ∷ checker.name ∷ ":" ∷ cc.rule.name ∷ []);
                severity =
                    if is_valid_severity cc.rule.severity
                    then cc.rule.severity
                    else severity_warning;
                resource = resource;
                namespace = ns;
                message = message_of quote cc item.object;
                suggestion = "";
                metadata = [];
              }
                ∷ []
              else []
        ]

    unfoldable pub item_issues : Item O → List (CompiledCheck P) → List Issue
    unfolding rule_issues
    item_issues item [] = []
    item_issues item (cc ∷ ccs) = rule_issues item cc ++ item_issues item ccs

    -- The loop over the items: the issues, and the items counted as healthy.
    unfoldable pub check_items : List (Item O) → List Issue × ℕ
    unfolding item_issues has_issue
    check_items [] = ([], 0)
    check_items (item ∷ items) =
        let (issues, healthy) = check_items items in
        (
          item_issues item checker.compiled ++ issues,
          if has_issue item.object checker.compiled then healthy else 1 + healthy,
        )

    abbrev pub list_error : String → Issue
    list_error err = record {
      type = concat ("plugin:" ∷ checker.name ∷ ":list-error" ∷ []);
      severity = severity_warning;
      resource =
          concat
            (checker.target.group ∷ "/" ∷ checker.target.version ∷ "/" ∷ checker.target.kind ∷ []);
      namespace = ns;
      message = concat ("Failed to list " ∷ checker.target.kind ∷ " resources: " ∷ err ∷ []);
      suggestion = "";
      metadata = [];
    }

  module _ (quote : String → String) (list_items : String → String ⊎ List (Item O))
      (checker : PluginChecker P) where
    -- The loop over the namespaces: the issues, the healthy items and the namespaces that failed.
    unfoldable pub check_namespaces : List String → List Issue × (ℕ × List String)
    unfolding check_items
    check_namespaces [] = ([], (0, []))
    check_namespaces (ns ∷ nss) =
        let (issues, (healthy, failed)) = check_namespaces nss in
        elim (list_items ns) [
          | inl err ↦ (list_error quote checker ns err ∷ issues, (healthy, ns ∷ failed))
          | inr items ↦
              let (found, well) = check_items quote checker ns items in
              (found ++ issues, (well + healthy, failed))
        ]

    unfoldable pub check_plugin : List String → CheckResult
    unfolding check_namespaces spaced concat show
    check_plugin nss =
        let (issues, (healthy, failed)) = check_namespaces nss in
        record {
          checker_name = concat ("plugin:" ∷ checker.name ∷ []);
          healthy = healthy;
          issues = issues;
          error =
              if eqb (length failed) (length nss)
              then some (
                  concat (
                    "all "
                    ∷ show (length failed)
                    ∷ " namespace(s) failed: ["
                    ∷ spaced failed
                    ∷ "]"
                    ∷ []))
              else none;
        }

    -- `checkCtx` with its namespaces, or nil.
    unfoldable pub check_context : Option (List String) → String ⊎ CheckResult
    unfolding check_plugin
    check_context none = inl "checkCtx must not be nil"
    check_context (some nss) = inr (check_plugin nss)
