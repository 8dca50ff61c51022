-- ===== src/Causal/Dedup.antt =====
-- internal/causal/correlator.go: `deduplicateGroups` and `sortGroups`.
pub mod Claims
pub mod Cover
pub mod Order
mod Tests
use kube_assist_operator.Prelude.{
  ℕ, zero, suc, ◌+◌, Bool, true, false, List, [], ◌∷◌, ◌++◌, map, String, string_eq, ltb, eqb, not,
  if◌then◌else◌, length, contains, remove,
}
use kube_assist_operator.Prelude.Sort.{sort_stable}
use kube_assist_operator.Causal.Types.{TimelineEvent, CausalGroup, event_key, severity_priority}

-- The inner loop: the events whose key is not claimed yet, and the keys claimed after it.
unfoldable pub claim : List String → List TimelineEvent → List TimelineEvent × List String
claim claimed [] = ([], claimed)
claim claimed (e ∷ es) =
    let seen = contains (event_key e) claimed in
    let (kept, claimed') = claim (if seen then claimed else event_key e ∷ claimed) es in
    (if seen then kept else e ∷ kept, claimed')

-- `delete(claimed, key)` for each kept event.
unfoldable pub release : List String → List TimelineEvent → List String
release claimed [] = claimed
release claimed (e ∷ es) = release (remove (event_key e) claimed) es

-- The outer loop, over groups sorted by confidence.
unfoldable pub dedup_from : List String → List CausalGroup → List CausalGroup
dedup_from claimed [] = []
dedup_from claimed (g ∷ gs) =
    let (kept, claimed') = claim claimed g.events in
    let small = ltb (length kept) 2 in
    let rest = dedup_from (if small then release claimed' kept else claimed') gs in
    if small then rest else record g { events = kept } ∷ rest

-- `groups[i].Confidence > groups[j].Confidence`
abbrev pub more_confident : CausalGroup → CausalGroup → Bool
more_confident g h = ltb h.confidence g.confidence

unfoldable pub deduplicate_groups : List CausalGroup → List CausalGroup
unfolding dedup_from claim release sort_stable
deduplicate_groups groups = dedup_from [] (sort_stable more_confident groups)

-- The order of `sortGroups`.
abbrev pub more_severe : CausalGroup → CausalGroup → Bool
more_severe g h =
    let pg = severity_priority g.severity in
    let ph = severity_priority h.severity in
    if not (eqb pg ph) then ltb ph pg else more_confident g h

unfoldable pub sort_groups : List CausalGroup → List CausalGroup
unfolding sort_stable severity_priority
sort_groups groups = sort_stable more_severe groups
