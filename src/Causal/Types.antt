-- ===== src/Causal/Types.antt =====
-- internal/causal/types.go and the issue types of internal/checker/checker.go, with the helpers
-- that every correlator shares. The texts of a group (ID, title, root cause) are left out, and so
-- are the fields that the AI fills in later.
-- A confidence is a float constant; here it is counted in ten-thousandths.
use kube_assist_operator.Prelude.{
  ℕ, Option, none, some, List, [], ◌∷◌, ◌++◌, String, string_eq, ◌==◌, ltb, if◌then◌else◌, contains,
  All,
}
use kube_assist_operator.Prelude.Texts.{concat, text_lt}
use kube_assist_operator.Prelude.Sort.{sort_stable}

-- `checker.Issue`
pub record Issue : Type 0 where
  pub type : String
  pub severity : String
  pub resource : String
  pub namespace : String
  pub message : String
  pub suggestion : String
  pub metadata : List (String × String)

-- `checker.CheckResult`; the error is its text.
pub record CheckResult : Type 0 where
  pub checker_name : String
  pub healthy : ℕ
  pub issues : List Issue
  pub error : Option String

pub record TimelineEvent : Type 0 where
  pub timestamp : ℕ
  pub checker : String
  pub issue : Issue

pub record CausalGroup : Type 0 where
  pub rule : String
  pub severity : String
  pub events : List TimelineEvent
  pub confidence : ℕ
  pub first_seen : ℕ
  pub last_seen : ℕ

pub record CausalContext : Type 0 where
  pub groups : List CausalGroup
  pub uncorrelated_count : ℕ
  pub total_issues : ℕ

-- The map of results, in the order in which it is ranged over; a missing result is a nil pointer.
pub record CorrelationInput : Type 0 where
  pub results : List (String × Option CheckResult)
  pub timestamp : ℕ

abbrev pub severity_critical : String
severity_critical = "Critical"

abbrev pub severity_warning : String
severity_warning = "Warning"

abbrev pub severity_info : String
severity_info = "Info"

-- The priority maps of `highestSeverity` and `sortGroups`; a missing key gives 0.
unfoldable pub severity_priority : String → ℕ
severity_priority s =
    if s == severity_critical
    then 3
    else (if s == severity_warning then 2 else (if s == severity_info then 1 else 0))

-- The loop of `highestSeverity`.
unfoldable pub highest_from : String → ℕ → List TimelineEvent → String
highest_from best best_prio [] = best
highest_from best best_prio (e ∷ es) =
    let p = severity_priority e.issue.severity in
    let better = ltb best_prio p in
    highest_from (if better then e.issue.severity else best) (if better then p else best_prio) es

unfoldable pub highest_severity : List TimelineEvent → String
unfolding highest_from severity_priority
highest_severity es = highest_from "" 0 es

-- The loop of `uniqueCheckers`, before its sort.
unfoldable pub unique_from : List String → List TimelineEvent → List String
unique_from seen [] = []
unique_from seen (e ∷ es) =
    let old = contains e.checker seen in
    let rest = unique_from (if old then seen else e.checker ∷ seen) es in
    if old then rest else e.checker ∷ rest

unfoldable pub unique_checkers : List TimelineEvent → List String
unfolding unique_from sort_stable
unique_checkers es = sort_stable text_lt (unique_from [] es)

abbrev pub cluster_scope : String
cluster_scope = "_cluster"

abbrev pub scope_of : Issue → String
scope_of i = if i.namespace == "" then cluster_scope else i.namespace

-- The key by which an issue is claimed.
unfoldable pub event_key : TimelineEvent → String
event_key e =
    concat (e.checker ∷ ":" ∷ e.issue.namespace ∷ "/" ∷ e.issue.resource ∷ ":" ∷ e.issue.type ∷ [])

-- The events of one result, for `range result.Issues`.
abbrev pub events_of : ℕ → String → List Issue → List TimelineEvent
events_of at name [] = []
events_of at name (i ∷ is) =
    record { timestamp = at; checker = name; issue = i } ∷ events_of at name is

abbrev pub result_events : ℕ → String → Option CheckResult → List TimelineEvent
result_events at name none = []
result_events at name (some r) = elim (r.error) [
  | none ↦ events_of at name r.issues
  | some text ↦ []
]

-- `flattenEvents`; a nil result and a failed one have no events.
unfoldable pub flatten_from : ℕ → List (String × Option CheckResult) → List TimelineEvent
flatten_from at [] = []
flatten_from at ((name, r) ∷ rs) = result_events at name r ++ flatten_from at rs

abbrev pub flatten_events : CorrelationInput → List TimelineEvent
flatten_events input = flatten_from input.timestamp input.results

-- Ranging over a map visits entries of the map only.
abbrev pub VisitsEntries : {V : Type 0} → (List (String × V) → List (String × V)) → Type 1
VisitsEntries {V} range =
    (Q : String × V → Type 0) (m : List (String × V)) → All Q m → All Q (range m)
