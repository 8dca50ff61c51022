-- ===== src/Causal/Correlator.antt =====
-- internal/causal/correlator.go: `Analyze`, all strategies and the deduplication in turn.
pub mod Marks
pub mod Counts
mod Tests
use kube_assist_operator.Prelude.{
  ℕ, zero, suc, ◌+◌, ◌-◌, Option, none, some, List, [], ◌∷◌, ◌++◌, String, string_eq, eqb,
  if◌then◌else◌, length, contains,
}
use kube_assist_operator.Causal.Types.{
  CheckResult, TimelineEvent, CausalGroup, CausalContext, CorrelationInput, event_key,
}
use kube_assist_operator.Causal.Dedup.{deduplicate_groups, sort_groups}
use kube_assist_operator.Causal.Temporal.{
  Buckets, default_time_window, new_temporal_correlator, correlate_temporal,
}
use kube_assist_operator.Causal.Graph.{correlate_graph}
use kube_assist_operator.Causal.Rules.{
  CrossCheckerRule, ByNamespace, default_rules, apply_cross_checker_rules,
}

pub record Correlator : Type 0 where
  pub window : ℕ
  pub rules : List CrossCheckerRule

unfoldable pub new_correlator : Correlator
unfolding new_temporal_correlator
new_correlator = record {
  window = new_temporal_correlator default_time_window;
  rules = default_rules;
}

unfoldable pub new_correlator_with_window : ℕ → Correlator
unfolding new_temporal_correlator
new_correlator_with_window window = record {
  window = new_temporal_correlator window;
  rules = default_rules;
}

abbrev pub issue_count : Option CheckResult → ℕ
issue_count none = 0
issue_count (some r) = elim (r.error) [ none ↦ length r.issues | some text ↦ 0 ]

-- The first loop of `Analyze`.
unfoldable pub count_issues : List (String × Option CheckResult) → ℕ
count_issues [] = 0
count_issues ((name, r) ∷ rs) = issue_count r + count_issues rs

-- `correlated[key] = true` for each event of each group.
unfoldable pub mark_events : List String → List TimelineEvent → List String
unfolding contains
mark_events seen [] = seen
mark_events seen (e ∷ es) =
    mark_events (if contains (event_key e) seen then seen else event_key e ∷ seen) es

unfoldable pub mark_groups : List String → List CausalGroup → List String
unfolding mark_events
mark_groups seen [] = seen
mark_groups seen (g ∷ gs) = mark_groups (mark_events seen g.events) gs

-- The two maps that are ranged over are visited in an order that Go does not specify.
module _ (range_buckets : Buckets → Buckets) (range_tagged : ByNamespace → ByNamespace) where
  unfoldable pub all_groups : Correlator → CorrelationInput → List CausalGroup
  all_groups c input =
      apply_cross_checker_rules range_tagged c.rules input
      ++ (correlate_graph range_buckets input ++ correlate_temporal range_buckets c.window input)

  -- The difference is taken on natural numbers, and stops at 0.
  unfoldable pub analyze : Correlator → CorrelationInput → CausalContext
  analyze c input =
      let total = count_issues input.results in
      let groups = deduplicate_groups (all_groups c input) in
      if eqb total 0
      then record { groups = []; uncorrelated_count = 0; total_issues = 0 }
      else record {
        groups = sort_groups groups;
        uncorrelated_count = total - length (mark_groups [] groups);
        total_issues = total;
      }
