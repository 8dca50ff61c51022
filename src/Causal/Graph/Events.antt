-- ===== src/Causal/Graph/Events.antt =====
-- Every event of an ownership group is an event of the input.
use kube_assist_operator.Prelude.{
  ℕ, suc, ◌+◌, false, ltb, eqb, ◌||◌, if◌then◌else◌, List, [], ◌∷◌, map, string_eq, nat_eq, length,
  All, All-append, contains, remove, Bool-cases, inl, inr,
}
use kube_assist_operator.Prelude.Sort.{sort_stable-All}
use kube_assist_operator.Prelude.Texts.{text_lt}
use kube_assist_operator.Causal.Types.{
  TimelineEvent, CorrelationInput, flatten_events, VisitsEntries,
}
use kube_assist_operator.Causal.Temporal.{Buckets, bucket_from}
use kube_assist_operator.Causal.Temporal.Events.{GroupOf, BucketOf, bucket_from-All}
use kube_assist_operator.Causal.Graph.{
  Parsed, related, parse_from, gather, chains, build_graph_group, correlate_graph_buckets,
  correlate_graph,
}

module _ (P : TimelineEvent → Type 0) where
  abbrev ParsedOf : Parsed → Type 0
  ParsedOf r = P r.event

  parse_from-All : (i : ℕ) (es : List TimelineEvent) → All P es → All ParsedOf (parse_from i es)
  unfolding parse_from
  parse_from-All i [] h = tt
  parse_from-All i (e ∷ es) h = (h.0, parse_from-All (i + 1) es h.1)

  gather-All :
      (r : Parsed) (ss : List Parsed) (used : List ℕ)
      → All ParsedOf ss
      → All ParsedOf (gather r ss used).0
  unfolding gather
  gather-All r [] used h = tt
  gather-All r (s ∷ ss) used h =
      elim (Bool-cases (if eqb r.idx s.idx || contains s.idx used then false else related r s)) [
        | inl joins ↦ rw (joins, gather) (h.0, gather-All r ss (s.idx ∷ used) h.1)
        | inr stays ↦ rw (stays, gather) (gather-All r ss used h.1)
      ]

  events-All : (rs : List Parsed) → All ParsedOf rs → All P (map (λ s. s.event) rs)
  events-All [] h = tt
  events-All (r ∷ rs) h = (h.0, events-All rs h.1)

  chains-All :
      (at : ℕ) (rs all : List Parsed) (used : List ℕ)
      → All ParsedOf rs
      → All ParsedOf all
      → All (GroupOf P) (chains at rs all used)
  unfolding chains build_graph_group
  chains-All at [] all used h k = tt
  chains-All at (r ∷ rs) all used h k =
      let (chain, used') = gather r all (r.idx ∷ used) in
      let alone = ltb (suc (length chain)) 2 in
      let skip = contains r.idx used in
      let next = if skip then used else (if alone then remove r.idx used' else used') in
      let rest = chains-All at rs all next h.1 k in
      elim (Bool-cases (skip || alone)) [
        | inl none_here ↦ rw none_here rest
        | inr group ↦ rw group (
          sort_stable-All (λ e f. text_lt e.issue.resource f.issue.resource) P
              (map (λ s. s.event) (r ∷ chain))
              (h.0, events-All chain (gather-All r all (r.idx ∷ used) k)),
          rest,
        )
      ]

  correlate_graph_buckets-All :
      (at : ℕ) (m : Buckets) → All (BucketOf P) m → All (GroupOf P) (correlate_graph_buckets at m)
  unfolding correlate_graph_buckets
  correlate_graph_buckets-All at [] h = tt
  correlate_graph_buckets-All at ((ns, es) ∷ m) h =
      let rest = correlate_graph_buckets-All at m h.1 in
      let resources = parse_from 0 es in
      let parsed = parse_from-All 0 es h.0 in
      elim (Bool-cases (ltb (length es) 2)) [
        | inl alone ↦ rw alone rest
        | inr pair ↦ rw pair (
            All-append (GroupOf P) (chains at resources resources []) _
              (chains-All at resources resources [] parsed parsed) rest)
      ]

  -- Whatever holds of every event of the input holds of every event of every ownership group.
  pub correlate_graph-All :
      (range : Buckets → Buckets) (input : CorrelationInput)
      → VisitsEntries range
      → All P (flatten_events input)
      → All (GroupOf P) (correlate_graph range input)
  unfolding correlate_graph
  correlate_graph-All range input law h =
      elim (Bool-cases (ltb (length (flatten_events input)) 2)) [
        | inl few ↦ rw few tt
        | inr enough ↦ rw enough (
            correlate_graph_buckets-All input.timestamp
              (range (bucket_from [] (flatten_events input)))
              (law (BucketOf P) (bucket_from [] (flatten_events input))
                (bucket_from-All P [] (flatten_events input) h tt)))
      ]
