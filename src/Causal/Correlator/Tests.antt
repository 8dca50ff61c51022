-- ===== src/Causal/Correlator/Tests.antt =====
-- An out-of-memory kill beside an exhausted quota, and an issue of another namespace.
use kube_assist_operator.Prelude.{
  ◌+◌, ◌≡◌, refl, none, some, [], ◌∷◌, String, string_eq, length, contains, remove,
}
use kube_assist_operator.Prelude.Texts.{
  concat, has_infix, to_upper, has_prefix, codes_eq, cut, to_lower, text_lt,
}
use kube_assist_operator.Causal.Types.{Issue, CorrelationInput, event_key, flatten_from}
use kube_assist_operator.Causal.Dedup.{deduplicate_groups, sort_groups}
use kube_assist_operator.Causal.Rules.{
  apply_cross_checker_rules, match_pvc_workload, match_flux_chain, match_crash_image_pull,
  match_oom_quota,
}
use kube_assist_operator.Causal.Graph.{correlate_graph}
use kube_assist_operator.Causal.Temporal.{correlate_temporal}
use kube_assist_operator.Causal.Correlator.{
  new_correlator, count_issues, mark_groups, all_groups, analyze,
}
use kube_assist_operator.Causal.Correlator.Marks.{shown}
use kube_assist_operator.Causal.Correlator.Counts.{analyze_counts}

abbrev found : String → String → String → String → Issue
found type severity resource namespace = record {
  type = type;
  severity = severity;
  resource = resource;
  namespace = namespace;
  message = "";
  suggestion = "";
  metadata = [];
}

abbrev input : CorrelationInput
input = record {
  results =
      (
        "workloads",
        some (record {
          checker_name = "workloads";
          healthy = 3;
          issues =
              found "OOMKilled" "Critical" "deployment/api" "shop"
              ∷ found "Unready" "Warning" "deployment/docs" "site"
              ∷ [];
          error = none;
        }),
      )
      ∷ (
        "quotas",
        some (record {
          checker_name = "quotas";
          healthy = 0;
          issues = found "Exhausted" "Warning" "quota/mem" "shop" ∷ [];
          error = none;
        }),
      )
      ∷ (
        "secrets",
        some (record {
          checker_name = "secrets";
          healthy = 0;
          issues = found "Expired" "Warning" "secret/tls" "shop" ∷ [];
          error = some "forbidden";
        }),
      )
      ∷ ("flux", none)
      ∷ [];
  timestamp = 7;
}

-- One group of two issues is found, and the third issue is left over.
found_counts :
    let out = analyze (λ m. m) (λ m. m) new_correlator input in
    (length out.groups ≡ 1)
    × (shown out.groups ≡ 2)
    × (out.uncorrelated_count ≡ 1)
    × (out.total_issues ≡ 3)
unfolding analyze all_groups count_issues mark_groups deduplicate_groups sort_groups new_correlator
    event_key concat contains has_infix to_upper has_prefix codes_eq cut to_lower flatten_from
    apply_cross_checker_rules match_pvc_workload match_flux_chain match_crash_image_pull
    match_oom_quota correlate_graph remove correlate_temporal text_lt
found_counts = (refl, refl, refl, refl)

analyze_counts_example :
    let out = analyze (λ m. m) (λ m. m) new_correlator input in
    (out.total_issues ≡ count_issues input.results)
    × (shown out.groups + out.uncorrelated_count ≡ out.total_issues)
analyze_counts_example =
    analyze_counts (λ m. m) (λ m. m) (λ Q m h. h) (λ Q m h. h) new_correlator input
