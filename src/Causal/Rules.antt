-- ===== src/Causal/Rules.antt =====
-- internal/causal/rules.go: patterns over the issues of several checkers in one namespace.
pub mod Events
use kube_assist_operator.Prelude.{
  ℕ, zero, suc, ◌+◌, Bool, true, false, ◌&&◌, ◌||◌, Option, none, some, List, [], ◌∷◌, ◌++◌, map,
  String, string_eq, if◌then◌else◌, length, lookup, insert, contains, ◌==◌, eqb,
}
use kube_assist_operator.Prelude.Texts.{codes, has_infix, to_upper}
use kube_assist_operator.Causal.Types.{
  Issue, CheckResult, TimelineEvent, CausalGroup, CorrelationInput, scope_of, highest_severity,
  severity_critical, severity_warning,
}

-- `CrossCheckerRule`, less the text of its root cause. `match` gives the tag, if it matches.
pub record CrossCheckerRule : Type 0 where
  pub name : String
  pub matches : String → Issue → Option String
  pub required_tags : List String
  pub confidence : ℕ

abbrev pub checker_workloads : String
checker_workloads = "workloads"

abbrev pub is_urgent : Issue → Bool
is_urgent i = i.severity == severity_critical || i.severity == severity_warning

-- `strings.Contains(strings.ToUpper(issue.Type), word)`
unfoldable pub type_has : Issue → String → Bool
unfolding has_infix to_upper
type_has i word = has_infix (map to_upper (codes i.type)) (codes word)

unfoldable pub match_oom_quota : String → Issue → Option String
unfolding type_has
match_oom_quota checker i =
    if checker == checker_workloads && type_has i "OOM"
    then some "oom"
    else (if checker == "quotas" && is_urgent i then some "quota" else none)

unfoldable pub match_crash_image_pull : String → Issue → Option String
unfolding type_has
match_crash_image_pull checker i =
    if checker == checker_workloads
    then (if type_has i "CRASHLOOP"
        then some "crash"
        else (if type_has i "IMAGEPULL" then some "imagepull" else none))
    else none

unfoldable pub match_flux_chain : String → Issue → Option String
match_flux_chain checker i =
    if is_urgent i
    then (if checker == "gitrepositories"
        then some "flux-source"
        else (if checker == "helmreleases" || checker == "kustomizations"
            then some "flux-consumer"
            else none))
    else none

unfoldable pub match_pvc_workload : String → Issue → Option String
unfolding type_has
match_pvc_workload checker i =
    if checker == "pvcs" && is_urgent i
    then some "pvc"
    else (if checker == checker_workloads && (type_has i "PENDING" || type_has i "UNSCHEDULABLE")
        then some "workload-pending"
        else none)

abbrev pub oom_quota_rule : CrossCheckerRule
oom_quota_rule = record {
  name = "oom-quota";
  matches = match_oom_quota;
  required_tags = "oom" ∷ "quota" ∷ [];
  confidence = 8500;
}

abbrev pub crash_image_pull_rule : CrossCheckerRule
crash_image_pull_rule = record {
  name = "crash-imagepull";
  matches = match_crash_image_pull;
  required_tags = "crash" ∷ "imagepull" ∷ [];
  confidence = 8000;
}

abbrev pub flux_chain_rule : CrossCheckerRule
flux_chain_rule = record {
  name = "flux-chain";
  matches = match_flux_chain;
  required_tags = "flux-source" ∷ "flux-consumer" ∷ [];
  confidence = 9000;
}

abbrev pub pvc_workload_rule : CrossCheckerRule
pvc_workload_rule = record {
  name = "pvc-workload";
  matches = match_pvc_workload;
  required_tags = "pvc" ∷ "workload-pending" ∷ [];
  confidence = 7500;
}

abbrev pub default_rules : List CrossCheckerRule
default_rules = oom_quota_rule ∷ crash_image_pull_rule ∷ flux_chain_rule ∷ pvc_workload_rule ∷ []

pub record TaggedEvent : Type 0 where
  pub event : TimelineEvent
  pub tag : String

-- `byNSAndRule`
abbrev pub ByRule : Type 0
ByRule = List (String × List TaggedEvent)

abbrev pub ByNamespace : Type 0
ByNamespace = List (String × ByRule)

abbrev pub or_empty {ℓ} : {A : Type ℓ} → Option (List A) → List A
or_empty none = []
or_empty (some xs) = xs

-- `byNSAndRule[ns][rule.Name] = append(…)`
unfoldable pub add_tagged : ByNamespace → String → String → TaggedEvent → ByNamespace
unfolding lookup insert
add_tagged m ns rule t =
    let inner = or_empty (lookup ns m) in
    insert ns (insert rule (or_empty (lookup rule inner) ++ (t ∷ [])) inner) m

-- The loop over the issues of one result, for one rule.
unfoldable pub tag_issues : CrossCheckerRule → ℕ → String → List Issue → ByNamespace → ByNamespace
unfolding add_tagged
tag_issues rule at checker [] m = m
tag_issues rule at checker (i ∷ is) m =
    let m' : ByNamespace = elim (rule.matches checker i) [
      | none ↦ m
      | some tag ↦
          add_tagged m (scope_of i) rule.name
            (record { event = record { timestamp = at; checker = checker; issue = i }; tag = tag })
    ] in
    tag_issues rule at checker is m'

unfoldable pub tag_results :
    CrossCheckerRule → ℕ → List (String × Option CheckResult) → ByNamespace → ByNamespace
unfolding tag_issues
tag_results rule at [] m = m
tag_results rule at ((checker, r) ∷ rs) m =
    let m' : ByNamespace = elim r [
      | none ↦ m
      | some result ↦ elim (result.error) [
        | some text ↦ m
        | none ↦ tag_issues rule at checker result.issues m
      ]
    ] in
    tag_results rule at rs m'

unfoldable pub tag_rules : List CrossCheckerRule → CorrelationInput → ByNamespace → ByNamespace
unfolding tag_results
tag_rules [] input m = m
tag_rules (rule ∷ rules) input m =
    tag_rules rules input (tag_results rule input.timestamp input.results m)

abbrev pub tags_of : List TaggedEvent → List String
tags_of = map (λ t. t.tag)

-- `allPresent`
unfoldable pub all_present : List String → List TaggedEvent → Bool
unfolding contains
all_present [] tagged = true
all_present (required ∷ rs) tagged = contains required (tags_of tagged) && all_present rs tagged

unfoldable pub build_rule_group : CrossCheckerRule → ℕ → List TaggedEvent → CausalGroup
unfolding highest_severity
build_rule_group rule at tagged =
    let events = map (λ t. t.event) tagged in
    record {
      rule = rule.name;
      severity = highest_severity events;
      events = events;
      confidence = rule.confidence;
      first_seen = at;
      last_seen = at;
    }

-- The loop over the rules, for one namespace.
unfoldable pub fire_rules : List CrossCheckerRule → ℕ → ByRule → List CausalGroup
unfolding lookup all_present build_rule_group
fire_rules [] at by_rule = []
fire_rules (rule ∷ rules) at by_rule =
    let rest = fire_rules rules at by_rule in
    let tagged = or_empty (lookup rule.name by_rule) in
    if eqb (length tagged) 0
    then rest
    else (if all_present rule.required_tags tagged
        then build_rule_group rule at tagged ∷ rest
        else rest)

unfoldable pub fire_namespaces : List CrossCheckerRule → ℕ → ByNamespace → List CausalGroup
unfolding fire_rules
fire_namespaces rules at [] = []
fire_namespaces rules at ((ns, by_rule) ∷ m) =
    fire_rules rules at by_rule ++ fire_namespaces rules at m

module _ (range : ByNamespace → ByNamespace) where
  unfoldable pub apply_cross_checker_rules :
      List CrossCheckerRule → CorrelationInput → List CausalGroup
  unfolding fire_namespaces tag_rules
  apply_cross_checker_rules rules input =
      fire_namespaces rules input.timestamp (range (tag_rules rules input []))
