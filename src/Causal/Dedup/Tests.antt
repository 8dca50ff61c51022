-- ===== src/Causal/Dedup/Tests.antt =====
-- Two groups that share an issue.
use kube_assist_operator.Prelude.{
  ℕ, ◌≤◌, ◌≡◌, refl, List, [], ◌∷◌, String, string_eq, length, All, Distinct, keep,
}
use mathlib.Core.List.{Perm}
use kube_assist_operator.Prelude.{contains}
use kube_assist_operator.Prelude.Texts.{concat}
use kube_assist_operator.Causal.Types.{TimelineEvent, CausalGroup, event_key}
use kube_assist_operator.Causal.Dedup.{deduplicate_groups, sort_groups}
use kube_assist_operator.Causal.Dedup.Claims.{group_keys, deduplicate_groups-Distinct}
use kube_assist_operator.Causal.Dedup.Cover.{Covers, deduplicate_groups-Covers}
use kube_assist_operator.Causal.Dedup.Order.{IsShown, alike, sort_groups-IsShown}

abbrev event : String → String → TimelineEvent
event checker resource = record {
  timestamp = 7;
  checker = checker;
  issue = record {
    type = "Failed";
    severity = "Warning";
    resource = resource;
    namespace = "shop";
    message = "";
    suggestion = "";
    metadata = [];
  };
}

abbrev group : String → ℕ → List TimelineEvent → CausalGroup
group rule confidence events = record {
  rule = rule;
  severity = "Warning";
  events = events;
  confidence = confidence;
  first_seen = 7;
  last_seen = 7;
}

abbrev a : TimelineEvent
a = event "workloads" "pod/a"

abbrev b : TimelineEvent
b = event "workloads" "pod/b"

abbrev c : TimelineEvent
c = event "pvcs" "pvc/c"

abbrev groups : List CausalGroup
groups = group "temporal" 7000 (a ∷ b ∷ c ∷ []) ∷ group "pvc-workload" 7500 (a ∷ c ∷ []) ∷ []

-- The surer group keeps both of its issues; the other is left with one, and is dropped.
dedup_groups : deduplicate_groups groups ≡ group "pvc-workload" 7500 (a ∷ c ∷ []) ∷ []
unfolding deduplicate_groups contains event_key concat
dedup_groups = refl

deduplicate_groups-Distinct_example :
    Distinct (group_keys (deduplicate_groups groups))
    × All (λ g. 2 ≤ length g.events) (deduplicate_groups groups)
deduplicate_groups-Distinct_example = deduplicate_groups-Distinct groups

deduplicate_groups-Covers_example : All (Covers [] (group_keys (deduplicate_groups groups))) groups
deduplicate_groups-Covers_example = deduplicate_groups-Covers groups

sort_groups-IsShown_example :
    IsShown (sort_groups groups)
    × (((g : CausalGroup) → keep (alike g) (sort_groups groups) ≡ keep (alike g) groups)
        × Perm (sort_groups groups) groups)
sort_groups-IsShown_example = sort_groups-IsShown groups
