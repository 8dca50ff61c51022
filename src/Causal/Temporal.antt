-- ===== src/Causal/Temporal.antt =====
-- internal/causal/temporal.go: groups of issues close in time in one namespace.
-- Go does not specify the order in which `range` visits a map: it is a parameter.
pub mod Events
use kube_assist_operator.Prelude.{
  ℕ, zero, suc, ◌+◌, Bool, true, false, Option, none, some, List, [], ◌∷◌, ◌++◌, map, String,
  string_eq, ltb, leb, eqb, if◌then◌else◌, length, lookup, insert,
}
use kube_assist_operator.Prelude.Sort.{sort_stable}
use kube_assist_operator.Causal.Types.{
  TimelineEvent, CausalGroup, CorrelationInput, scope_of, flatten_events, highest_severity,
  unique_checkers,
}

-- `byNS`
abbrev pub Buckets : Type 0
Buckets = List (String × List TimelineEvent)

-- `byNS[ns] = append(byNS[ns], e)`
unfoldable pub add_event : Buckets → TimelineEvent → Buckets
unfolding lookup insert
add_event m e =
    let ns = scope_of e.issue in
    elim (lookup ns m) [ none ↦ insert ns (e ∷ []) m | some es ↦ insert ns (es ++ (e ∷ [])) m ]

unfoldable pub bucket_from : Buckets → List TimelineEvent → Buckets
unfolding add_event
bucket_from m [] = m
bucket_from m (e ∷ es) = bucket_from (add_event m e) es

-- `DefaultTimeWindow`, two minutes in nanoseconds.
abbrev pub default_time_window : ℕ
default_time_window = 120000000000

-- `NewTemporalCorrelator`; a window that is not positive is given as 0.
unfoldable pub new_temporal_correlator : ℕ → ℕ
new_temporal_correlator window = if eqb window 0 then default_time_window else window

-- `temporalConfidence`. As floats 0.5 + 0.2 is 0.7, and 0.5 + 0.2 + 0.1 is the number below 0.8.
unfoldable pub temporal_confidence : List TimelineEvent → ℕ
unfolding unique_checkers
temporal_confidence events =
    let many = ltb 1 (length (unique_checkers events)) in
    let long = leb 4 (length events) in
    if many then (if long then 7999 else 7000) else (if long then 6000 else 5000)

abbrev pub last_timestamp : ℕ → List TimelineEvent → ℕ
last_timestamp t [] = t
last_timestamp t (e ∷ es) = last_timestamp e.timestamp es

-- `buildTemporalGroup` of a non-empty list, less the texts.
unfoldable pub build_temporal_group : TimelineEvent → List TimelineEvent → CausalGroup
unfolding highest_severity temporal_confidence
build_temporal_group e es = record {
  rule = "temporal";
  severity = highest_severity (e ∷ es);
  events = e ∷ es;
  confidence = temporal_confidence (e ∷ es);
  first_seen = e.timestamp;
  last_seen = last_timestamp e.timestamp es;
}

-- The inner loop over the events behind `first`, each with its entry of `used`.
unfoldable pub sweep :
    ℕ → TimelineEvent → List TimelineEvent → List Bool → List TimelineEvent × List Bool
sweep window first [] us = ([], us)
sweep window first (e ∷ es) [] = ([], [])
sweep window first (e ∷ es) (u ∷ us) =
    let (taken, us') = sweep window first es us in
    if u
    then (taken, true ∷ us')
    else (if leb e.timestamp (first.timestamp + window)
        then (e ∷ taken, true ∷ us')
        else (taken, false ∷ us'))

-- The outer loop over a sorted bucket.
unfoldable pub group_windows : ℕ → List TimelineEvent → List Bool → List CausalGroup
unfolding sweep build_temporal_group
group_windows window [] us = []
group_windows window (e ∷ es) [] = []
group_windows window (e ∷ es) (true ∷ us) = group_windows window es us
group_windows window (e ∷ es) (false ∷ us) =
    let (taken, us') = sweep window e es us in
    let rest = group_windows window es us' in
    if ltb (suc (length taken)) 2 then rest else build_temporal_group e taken ∷ rest

abbrev pub unused : List TimelineEvent → List Bool
unused = map (λ _. false)

abbrev pub earlier : TimelineEvent → TimelineEvent → Bool
earlier e f = ltb e.timestamp f.timestamp

-- The loop over the namespaces.
unfoldable pub correlate_buckets : ℕ → Buckets → List CausalGroup
unfolding group_windows sort_stable
correlate_buckets window [] = []
correlate_buckets window ((ns, es) ∷ m) =
    let rest = correlate_buckets window m in
    let sorted = sort_stable earlier es in
    if ltb (length es) 2 then rest else group_windows window sorted (unused sorted) ++ rest

module _ (range : Buckets → Buckets) where
  unfoldable pub correlate_temporal : ℕ → CorrelationInput → List CausalGroup
  unfolding correlate_buckets bucket_from
  correlate_temporal window input =
      correlate_buckets window (range (bucket_from [] (flatten_events input)))
