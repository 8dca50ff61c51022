-- ===== src/Causal/Rules/Events.antt =====
-- Every event of a rule's group is an event of the input.
use kube_assist_operator.Prelude.{
  ℕ, eqb, Option, none, some, List, [], ◌∷◌, ◌++◌, map, String, string_eq, nat_eq, length, All,
  All-append, All-append_inv, lookup, insert, lookup-All, insert-All, Bool-cases, Option-cases, inl,
  inr,
}
use kube_assist_operator.Causal.Types.{
  Issue, CheckResult, TimelineEvent, CorrelationInput, scope_of, events_of, result_events,
  flatten_from, flatten_events, VisitsEntries,
}
use kube_assist_operator.Causal.Temporal.Events.{GroupOf}
use kube_assist_operator.Causal.Rules.{
  CrossCheckerRule, TaggedEvent, ByRule, ByNamespace, or_empty, add_tagged, tag_issues, tag_results,
  tag_rules, fire_rules, fire_namespaces, build_rule_group, all_present, apply_cross_checker_rules,
}

module _ (P : TimelineEvent → Type 0) where
  abbrev TaggedOf : TaggedEvent → Type 0
  TaggedOf t = P t.event

  abbrev RuleOf : String × List TaggedEvent → Type 0
  RuleOf b = All TaggedOf (b.1)

  abbrev SpaceOf : String × ByRule → Type 0
  SpaceOf b = All RuleOf (b.1)

  or_empty-All {κ} :
      {A : Type 0} (k : String) (Q : A → Type κ) (m : List (String × List A))
      → All (λ b. All Q (b.1)) m
      → All Q (or_empty (lookup k m))
  or_empty-All k Q m h = elim (Option-cases (lookup k m)) [
    | inl new ↦ rw new tt
    | inr (xs, at) ↦ rw at (lookup-All (All Q) k xs m h at)
  ]

  add_tagged-All :
      (m : ByNamespace) (ns rule : String) (t : TaggedEvent)
      → P t.event
      → All SpaceOf m
      → All SpaceOf (add_tagged m ns rule t)
  unfolding add_tagged
  add_tagged-All m ns rule t p h =
      let inner = or_empty (lookup ns m) in
      let hi = or_empty-All ns RuleOf m h in
      let old = or_empty (lookup rule inner) in
      insert-All (All RuleOf) ns (insert rule (old ++ (t ∷ [])) inner) m
        (insert-All (All TaggedOf) rule (old ++ (t ∷ [])) inner
          (All-append TaggedOf old (t ∷ []) (or_empty-All rule TaggedOf inner hi) (p, tt)) hi)
        h

  tag_issues-All :
      (rule : CrossCheckerRule) (at : ℕ) (checker : String) (is : List Issue) (m : ByNamespace)
      → All P (events_of at checker is)
      → All SpaceOf m
      → All SpaceOf (tag_issues rule at checker is m)
  unfolding tag_issues
  tag_issues-All rule at checker [] m p h = h
  tag_issues-All rule at checker (i ∷ is) m p h = elim (Option-cases (rule.matches checker i)) [
    | inl no_tag ↦ rw (no_tag, tag_issues) (tag_issues-All rule at checker is m p.1 h)
    | inr (tag, found) ↦
        let event : TimelineEvent = record { timestamp = at; checker = checker; issue = i } in
        let t : TaggedEvent = record { event = event; tag = tag } in
        rw (found, tag_issues)
          (tag_issues-All rule at checker is (add_tagged m (scope_of i) rule.name t) p.1
            (add_tagged-All m (scope_of i) rule.name t p.0 h))
  ]

  tag_result-All :
      (rule : CrossCheckerRule) (at : ℕ) (checker : String) (r : CheckResult) (m : ByNamespace)
      → All P (result_events at checker (some r))
      → All SpaceOf m
      → All SpaceOf
          (elim (r.error) [ some text ↦ m | none ↦ tag_issues rule at checker r.issues m ])
  tag_result-All rule at checker r m p h = elim (Option-cases r.error) [
    | inl fine ↦ rw fine (tag_issues-All rule at checker r.issues m (rw fine at p) h)
    | inr (text, bad) ↦ rw bad h
  ]

  tag_results-All :
      (rule : CrossCheckerRule) (at : ℕ) (rs : List (String × Option CheckResult)) (m : ByNamespace)
      → All P (flatten_from at rs)
      → All SpaceOf m
      → All SpaceOf (tag_results rule at rs m)
  unfolding tag_results flatten_from
  tag_results-All rule at [] m p h = h
  tag_results-All rule at ((checker, none) ∷ rs) m p h = tag_results-All rule at rs m p h
  tag_results-All rule at ((checker, some r) ∷ rs) m p h =
      let (here, later) =
        All-append_inv P (result_events at checker (some r)) (flatten_from at rs) p in
      tag_results-All rule at rs _ later (tag_result-All rule at checker r m here h)

  tag_rules-All :
      (rules : List CrossCheckerRule) (input : CorrelationInput) (m : ByNamespace)
      → All P (flatten_events input)
      → All SpaceOf m
      → All SpaceOf (tag_rules rules input m)
  unfolding tag_rules
  tag_rules-All [] input m p h = h
  tag_rules-All (rule ∷ rules) input m p h =
      tag_rules-All rules input (tag_results rule input.timestamp input.results m) p
        (tag_results-All rule input.timestamp input.results m p h)

  events-All : (ts : List TaggedEvent) → All TaggedOf ts → All P (map (λ t. t.event) ts)
  events-All [] h = tt
  events-All (t ∷ ts) h = (h.0, events-All ts h.1)

  fire_rules-All :
      (rules : List CrossCheckerRule) (at : ℕ) (by_rule : ByRule)
      → All RuleOf by_rule
      → All (GroupOf P) (fire_rules rules at by_rule)
  unfolding fire_rules build_rule_group
  fire_rules-All [] at by_rule h = tt
  fire_rules-All (rule ∷ rules) at by_rule h =
      let rest = fire_rules-All rules at by_rule h in
      let tagged = or_empty (lookup rule.name by_rule) in
      elim (Bool-cases (eqb (length tagged) 0)) [
        | inl empty ↦ rw empty rest
        | inr some_tags ↦ elim (Bool-cases (all_present rule.required_tags tagged)) [
          | inl all ↦
              rw (some_tags, all)
                (events-All tagged (or_empty-All rule.name TaggedOf by_rule h), rest)
          | inr missing ↦ rw (some_tags, missing) rest
        ]
      ]

  fire_namespaces-All :
      (rules : List CrossCheckerRule) (at : ℕ) (m : ByNamespace)
      → All SpaceOf m
      → All (GroupOf P) (fire_namespaces rules at m)
  unfolding fire_namespaces
  fire_namespaces-All rules at [] h = tt
  fire_namespaces-All rules at ((ns, by_rule) ∷ m) h =
      All-append (GroupOf P) (fire_rules rules at by_rule) _ (fire_rules-All rules at by_rule h.0)
        (fire_namespaces-All rules at m h.1)

  -- Whatever holds of every event of the input holds of every event of every rule's group.
  pub apply_cross_checker_rules-All :
      (range : ByNamespace → ByNamespace) (rules : List CrossCheckerRule) (input : CorrelationInput)
      → VisitsEntries range
      → All P (flatten_events input)
      → All (GroupOf P) (apply_cross_checker_rules range rules input)
  unfolding apply_cross_checker_rules
  apply_cross_checker_rules-All range rules input law h =
      fire_namespaces-All rules input.timestamp (range (tag_rules rules input []))
        (law SpaceOf (tag_rules rules input []) (tag_rules-All rules input [] h tt))
