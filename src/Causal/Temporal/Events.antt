-- ===== src/Causal/Temporal/Events.antt =====
-- Every event of a temporal group is an event of the input.
use kube_assist_operator.Prelude.{
  ℕ, suc, ◌+◌, Bool, true, false, ltb, leb, List, [], ◌∷◌, ◌++◌, String, string_eq, length, All,
  All-append, lookup, lookup-All, insert-All, Bool-cases, Option-cases, inl, inr,
}
use kube_assist_operator.Prelude.Sort.{sort_stable, sort_stable-All}
use kube_assist_operator.Causal.Types.{
  TimelineEvent, CausalGroup, CorrelationInput, scope_of, flatten_events, VisitsEntries,
}
use kube_assist_operator.Causal.Temporal.{
  Buckets, add_event, bucket_from, sweep, group_windows, build_temporal_group, earlier, unused,
  correlate_buckets, correlate_temporal,
}

module _ (P : TimelineEvent → Type 0) where
  abbrev pub GroupOf : CausalGroup → Type 0
  GroupOf g = All P g.events

  abbrev pub BucketOf : String × List TimelineEvent → Type 0
  BucketOf b = All P (b.1)

  add_event-All :
      (m : Buckets) (e : TimelineEvent) → P e → All BucketOf m → All BucketOf (add_event m e)
  unfolding add_event
  add_event-All m e p h = elim (Option-cases (lookup (scope_of e.issue) m)) [
    | inl new ↦ rw (new, add_event) (insert-All (All P) (scope_of e.issue) (e ∷ []) m (p, tt) h)
    | inr (es, at) ↦
        rw (at, add_event)
          (insert-All (All P) (scope_of e.issue) (es ++ (e ∷ [])) m
            (All-append P es (e ∷ []) (lookup-All (All P) (scope_of e.issue) es m h at) (p, tt)) h)
  ]

  pub bucket_from-All :
      (m : Buckets) (es : List TimelineEvent)
      → All P es
      → All BucketOf m
      → All BucketOf (bucket_from m es)
  unfolding bucket_from
  bucket_from-All m [] p h = h
  bucket_from-All m (e ∷ es) p h = bucket_from-All (add_event m e) es p.1 (add_event-All m e p.0 h)

  sweep-All :
      (window : ℕ) (first : TimelineEvent) (es : List TimelineEvent) (us : List Bool)
      → All P es
      → All P (sweep window first es us).0
  unfolding sweep
  sweep-All window first [] us h = tt
  sweep-All window first (e ∷ es) [] h = tt
  sweep-All window first (e ∷ es) (true ∷ us) h = sweep-All window first es us h.1
  sweep-All window first (e ∷ es) (false ∷ us) h =
      elim (Bool-cases (leb e.timestamp (first.timestamp + window))) [
        | inl near ↦ rw near (h.0, sweep-All window first es us h.1)
        | inr far ↦ rw far (sweep-All window first es us h.1)
      ]

  group_windows-All :
      (window : ℕ) (es : List TimelineEvent) (us : List Bool)
      → All P es
      → All GroupOf (group_windows window es us)
  unfolding group_windows build_temporal_group
  group_windows-All window [] us h = tt
  group_windows-All window (e ∷ es) [] h = tt
  group_windows-All window (e ∷ es) (true ∷ us) h = group_windows-All window es us h.1
  group_windows-All window (e ∷ es) (false ∷ us) h =
      let taken = (sweep window e es us).0 in
      let rest = group_windows-All window es (sweep window e es us).1 h.1 in
      elim (Bool-cases (ltb (suc (length taken)) 2)) [
        | inl alone ↦ rw alone rest
        | inr pair ↦ rw pair ((h.0, sweep-All window e es us h.1), rest)
      ]

  correlate_buckets-All :
      (window : ℕ) (m : Buckets) → All BucketOf m → All GroupOf (correlate_buckets window m)
  unfolding correlate_buckets
  correlate_buckets-All window [] h = tt
  correlate_buckets-All window ((ns, es) ∷ m) h =
      let sorted = sort_stable earlier es in
      let rest = correlate_buckets-All window m h.1 in
      elim (Bool-cases (ltb (length es) 2)) [
        | inl alone ↦ rw alone rest
        | inr pair ↦ rw pair (
            All-append GroupOf (group_windows window sorted (unused sorted)) _
              (group_windows-All window sorted (unused sorted) (sort_stable-All earlier P es h.0))
              rest)
      ]

  -- Whatever holds of every event of the input holds of every event of every temporal group: no
  -- event is invented.
  pub correlate_temporal-All :
      (range : Buckets → Buckets) (window : ℕ) (input : CorrelationInput)
      → VisitsEntries range
      → All P (flatten_events input)
      → All GroupOf (correlate_temporal range window input)
  unfolding correlate_temporal
  correlate_temporal-All range window input law h =
      correlate_buckets-All window (range (bucket_from [] (flatten_events input))) (
        law BucketOf (bucket_from [] (flatten_events input))
          (bucket_from-All [] (flatten_events input) h tt))
