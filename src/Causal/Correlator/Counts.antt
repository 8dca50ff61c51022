-- ===== src/Causal/Correlator/Counts.antt =====
-- The counts of an analysis: what is shown and what is left uncorrelated make up the issues.
use kube_assist_operator.Prelude.{
  ◌+◌, ◌≡◌, refl, ltb, eqb, List, [], ◌∷◌, String, string_eq, arith, length, All, All-append,
  contains, Bool-cases, inl, inr,
}
use kube_assist_operator.Prelude.Sort.{sort_stable, sort_stable-All}
use kube_assist_operator.Causal.Types.{
  TimelineEvent, CausalGroup, CorrelationInput, event_key, flatten_events, VisitsEntries,
}
use kube_assist_operator.Causal.Dedup.{
  claim, release, dedup_from, deduplicate_groups, more_confident,
}
use kube_assist_operator.Causal.Dedup.Claims.{deduplicate_groups-Distinct}
use kube_assist_operator.Causal.Temporal.{Buckets}
use kube_assist_operator.Causal.Temporal.Events.{GroupOf, correlate_temporal-All}
use kube_assist_operator.Causal.Graph.Events.{correlate_graph-All}
use kube_assist_operator.Causal.Rules.{ByNamespace}
use kube_assist_operator.Causal.Rules.Events.{apply_cross_checker_rules-All}
use kube_assist_operator.Causal.Correlator.Marks.{
  shown, shown-sort, length-mark_groups, shown_le_count, own_keys, KnownTo, input_keys,
}
use kube_assist_operator.Causal.Correlator.{Correlator, count_issues, all_groups, analyze}

module _ (P : TimelineEvent → Type 0) where
  claim-All :
      (claimed : List String) (es : List TimelineEvent) → All P es → All P (claim claimed es).0
  unfolding claim
  claim-All claimed [] h = tt
  claim-All claimed (e ∷ es) h = elim (Bool-cases (contains (event_key e) claimed)) [
    | inl seen ↦ rw seen (claim-All claimed es h.1)
    | inr new ↦ rw new (h.0, claim-All (event_key e ∷ claimed) es h.1)
  ]

  dedup_from-All :
      (claimed : List String) (gs : List CausalGroup)
      → All (GroupOf P) gs
      → All (GroupOf P) (dedup_from claimed gs)
  unfolding dedup_from
  dedup_from-All claimed [] h = tt
  dedup_from-All claimed (g ∷ gs) h =
      let (kept, claimed') = claim claimed g.events in
      elim (Bool-cases (ltb (length kept) 2)) [
        | inl few ↦ rw few (dedup_from-All (release claimed' kept) gs h.1)
        | inr enough ↦ rw enough (claim-All claimed g.events h.0, dedup_from-All claimed' gs h.1)
      ]

  deduplicate_groups-All :
      (gs : List CausalGroup) → All (GroupOf P) gs → All (GroupOf P) (deduplicate_groups gs)
  unfolding deduplicate_groups
  deduplicate_groups-All gs h =
      dedup_from-All [] (sort_stable more_confident gs)
        (sort_stable-All more_confident (GroupOf P) gs h)

module _ (range_buckets : Buckets → Buckets) (range_tagged : ByNamespace → ByNamespace)
    (visits_buckets : VisitsEntries range_buckets)
    (visits_tagged : VisitsEntries range_tagged) where
  -- Every strategy shows only events of the input: what holds of all of those holds of every event
  -- of every group, before the deduplication and after it.
  pub all_groups-All :
      (P : TimelineEvent → Type 0) (c : Correlator) (input : CorrelationInput)
      → All P (flatten_events input)
      → All (GroupOf P) (all_groups range_buckets range_tagged c input)
        × All (GroupOf P) (deduplicate_groups (all_groups range_buckets range_tagged c input))
  unfolding all_groups
  all_groups-All P c input h =
      let all =
        All-append (GroupOf P) _ _
          (apply_cross_checker_rules-All P range_tagged c.rules input visits_tagged h)
          (All-append (GroupOf P) _ _ (correlate_graph-All P range_buckets input visits_buckets h)
            (correlate_temporal-All P range_buckets c.window input visits_buckets h)) in
      (all, deduplicate_groups-All P _ all)

  -- The events shown in the groups of an analysis and its uncorrelated count add up to the number
  -- of issues that it analysed, so that the difference by which the count is taken is never
  -- negative.
  pub analyze_counts :
      (c : Correlator) (input : CorrelationInput)
      → let out = analyze range_buckets range_tagged c input in
        (out.total_issues ≡ count_issues input.results)
        × (shown out.groups + out.uncorrelated_count ≡ out.total_issues)
  unfolding analyze
  analyze_counts c input =
      let gs = all_groups range_buckets range_tagged c input in
      let known =
        (all_groups-All (KnownTo (input_keys input)) c input (own_keys (flatten_events input))).1 in
      let distinct = (deduplicate_groups-Distinct gs).0 in
      let marked = length-mark_groups (deduplicate_groups gs) distinct in
      let few = shown_le_count input (deduplicate_groups gs) distinct known in
      elim (Bool-cases (eqb (count_issues input.results) 0)) [
        | inl none_found ↦ rw none_found (ground arith, ground arith)
        | inr found ↦
            rw found (refl, omega (arith, marked, few, shown-sort (deduplicate_groups gs)))
      ]
