-- ===== src/Causal/Graph.antt =====
-- internal/causal/graph.go: groups of issues whose resources own one another, by kind and name.
-- A name is the list of its code points.
pub mod Events
use kube_assist_operator.Prelude.{
  ℕ, zero, suc, ◌+◌, Bool, true, false, ◌&&◌, ◌||◌, Option, none, some, List, [], ◌∷◌, ◌++◌, map,
  String, nat_eq, ltb, leb, eqb, if◌then◌else◌, length, contains, remove,
}
use kube_assist_operator.Prelude.Sort.{sort_stable}
use kube_assist_operator.Prelude.Texts.{codes, codes_eq, has_prefix, to_lower, cut, text_lt}
use kube_assist_operator.Causal.Types.{
  TimelineEvent, CausalGroup, CorrelationInput, flatten_events, highest_severity,
}
use kube_assist_operator.Causal.Temporal.{Buckets, bucket_from}

abbrev pub Name : Type 0
Name = List ℕ

-- The map `resourceHierarchy`; a missing kind gives 0.
unfoldable pub resource_hierarchy : Name → ℕ
unfolding codes_eq
resource_hierarchy kind =
    if codes_eq kind (codes "deployment")
      || codes_eq kind (codes "statefulset")
      || codes_eq kind (codes "daemonset")
    then 3
    else (if codes_eq kind (codes "replicaset")
        then 2
        else (if codes_eq kind (codes "pod") then 1 else 0))

-- `parseResource`: kind and name.
unfoldable pub parse_resource : Name → Name × Name
unfolding cut to_lower
parse_resource resource = elim (cut b'/' resource) [
  | some (kind, name) ↦ (map to_lower kind, name)
  | none ↦ ([], resource)
]

-- `strings.HasPrefix(b, a+"-") || b == a`
unfoldable pub extends_name : Name → Name → Bool
unfolding has_prefix codes_eq
extends_name a b = has_prefix b (a ++ (b'-' ∷ [])) || codes_eq b a

unfoldable pub related_by_ownership : Name → Name → Name → Name → Bool
unfolding resource_hierarchy extends_name codes_eq
related_by_ownership kind_a name_a kind_b name_b =
    let level_a = resource_hierarchy kind_a in
    let level_b = resource_hierarchy kind_b in
    if codes_eq kind_a kind_b && codes_eq name_a name_b
    then false
    else (if eqb level_a 0 || eqb level_b 0
        then false
        else (if ltb level_b level_a
            then extends_name name_a name_b
            else (if ltb level_a level_b then extends_name name_b name_a else false)))

-- `graphConfidence`
unfoldable pub graph_confidence : List TimelineEvent → ℕ
graph_confidence events =
    if leb 3 (length events) then 9000 else (if eqb (length events) 2 then 7000 else 5000)

-- `buildGraphGroup`, less the texts; `at` is the time of the check.
unfoldable pub build_graph_group : ℕ → List TimelineEvent → CausalGroup
unfolding highest_severity graph_confidence sort_stable
build_graph_group at events = record {
  rule = "resource-graph";
  severity = highest_severity events;
  events = sort_stable (λ e f. text_lt e.issue.resource f.issue.resource) events;
  confidence = graph_confidence events;
  first_seen = at;
  last_seen = at;
}

-- `parsed`, with the event at its index.
pub record Parsed : Type 0 where
  pub kind : Name
  pub name : Name
  pub idx : ℕ
  pub event : TimelineEvent

unfoldable pub parse_from : ℕ → List TimelineEvent → List Parsed
unfolding parse_resource
parse_from i [] = []
parse_from i (e ∷ es) =
    let (kind, name) = parse_resource (codes e.issue.resource) in
    record { kind = kind; name = name; idx = i; event = e } ∷ parse_from (i + 1) es

abbrev pub related : Parsed → Parsed → Bool
related r s = related_by_ownership r.kind r.name s.kind s.name

-- The inner loop: the chain behind `r`, and the indices used after it.
unfoldable pub gather : Parsed → List Parsed → List ℕ → List Parsed × List ℕ
unfolding related_by_ownership
gather r [] used = ([], used)
gather r (s ∷ ss) used =
    let joins = if eqb r.idx s.idx || contains s.idx used then false else related r s in
    let (chain, used') = gather r ss (if joins then s.idx ∷ used else used) in
    (if joins then s ∷ chain else chain, used')

-- The outer loop; a chain of one releases its index.
unfoldable pub chains : ℕ → List Parsed → List Parsed → List ℕ → List CausalGroup
unfolding gather build_graph_group
chains at [] all used = []
chains at (r ∷ rs) all used =
    let (chain, used') = gather r all (r.idx ∷ used) in
    let alone = ltb (suc (length chain)) 2 in
    let skip = contains r.idx used in
    let next = if skip then used else (if alone then remove r.idx used' else used') in
    let rest = chains at rs all next in
    if skip || alone then rest else build_graph_group at (map (λ s. s.event) (r ∷ chain)) ∷ rest

unfoldable pub correlate_graph_buckets : ℕ → Buckets → List CausalGroup
unfolding chains parse_from
correlate_graph_buckets at [] = []
correlate_graph_buckets at ((ns, es) ∷ m) =
    let rest = correlate_graph_buckets at m in
    let resources = parse_from 0 es in
    if ltb (length es) 2 then rest else chains at resources resources [] ++ rest

module _ (range : Buckets → Buckets) where
  unfoldable pub correlate_graph : CorrelationInput → List CausalGroup
  unfolding correlate_graph_buckets bucket_from
  correlate_graph input =
      let events = flatten_events input in
      if ltb (length events) 2
      then []
      else correlate_graph_buckets input.timestamp (range (bucket_from [] events))
