-- ===== src/Causal/Correlator/Marks.antt =====
-- The keys that `Analyze` marks as correlated, and the number of issues.
use kube_assist_operator.Prelude.{
  ℕ, suc, ◌+◌, ◌≤◌, ◌≡◌, refl, sym, ap, ap₂, ◌∙◌, true, false, if◌then◌else◌, Option, none, some,
  List, [], ◌∷◌, ◌++◌, String, string_eq, arith, length, length-append, All, All-impl, contains,
  contains-append, Distinct, length_of_Distinct, Option-cases, inl, inr,
}
use text.Mathlib.TextEquality.{eq_iff}
use kube_assist_operator.Prelude.Sort.{place, sort_stable}
use kube_assist_operator.Causal.Types.{
  Issue, CheckResult, TimelineEvent, CausalGroup, CorrelationInput, event_key, events_of,
  result_events, flatten_from, flatten_events,
}
use kube_assist_operator.Causal.Dedup.{more_severe, sort_groups}
use kube_assist_operator.Causal.Dedup.Claims.{keys, group_keys}
use kube_assist_operator.Causal.Temporal.Events.{GroupOf}
use kube_assist_operator.Causal.Correlator.{issue_count, count_issues, mark_events, mark_groups}

-- The number of events in groups.
abbrev pub shown : List CausalGroup → ℕ
shown [] = 0
shown (g ∷ gs) = length g.events + shown gs

length-keys : (es : List TimelineEvent) → length (keys es) ≡ length es
length-keys [] = refl
length-keys (e ∷ es) = ap suc (length-keys es)

shown-keys : (gs : List CausalGroup) → length (group_keys gs) ≡ shown gs
shown-keys [] = refl
shown-keys (g ∷ gs) =
    length-append (keys g.events) (group_keys gs) ∙ ap₂ ◌+◌ (length-keys g.events) (shown-keys gs)

pub shown-sort : (gs : List CausalGroup) → shown (sort_groups gs) ≡ shown gs
unfolding sort_groups
shown-sort gs = go gs
  where
    at_place :
        (g : CausalGroup) (hs : List CausalGroup)
        → shown (place more_severe g hs) ≡ length g.events + shown hs
    at_place g [] = refl
    at_place g (h ∷ hs) = ground (arith, at_place g hs)

    go : (gs : List CausalGroup) → shown (sort_stable more_severe gs) ≡ shown gs
    go [] = refl
    go (g ∷ gs) = at_place g (sort_stable more_severe gs) ∙ ap (λ n. length g.events + n) (go gs)

-- The set of marked keys grows by every key that is new.
mark_keys : List String → List String → List String
mark_keys seen [] = seen
mark_keys seen (k ∷ ks) = mark_keys (if contains k seen then seen else k ∷ seen) ks

mark_events-keys :
    (seen : List String) (es : List TimelineEvent) → mark_events seen es ≡ mark_keys seen (keys es)
unfolding mark_events mark_keys
mark_events-keys seen [] = refl
mark_events-keys seen (e ∷ es) =
    mark_events-keys (if contains (event_key e) seen then seen else event_key e ∷ seen) es

mark_keys-append :
    (seen xs ys : List String) → mark_keys seen (xs ++ ys) ≡ mark_keys (mark_keys seen xs) ys
unfolding mark_keys
mark_keys-append seen [] ys = refl
mark_keys-append seen (x ∷ xs) ys =
    mark_keys-append (if contains x seen then seen else x ∷ seen) xs ys

mark_groups-keys :
    (seen : List String) (gs : List CausalGroup)
    → mark_groups seen gs ≡ mark_keys seen (group_keys gs)
unfolding mark_groups mark_keys
mark_groups-keys seen [] = refl
mark_groups-keys seen (g ∷ gs) =
    mark_groups-keys (mark_events seen g.events) gs
    ∙ ap (λ s. mark_keys s (group_keys gs)) (mark_events-keys seen g.events)
    ∙ sym (mark_keys-append seen (keys g.events) (group_keys gs))

length-mark_keys :
    (seen ks : List String)
    → Distinct ks
    → ((k : String) → contains k ks ≡ true → contains k seen ≡ false)
    → length (mark_keys seen ks) ≡ length seen + length ks
unfolding mark_keys contains
length-mark_keys seen [] d h = omega arith
length-mark_keys seen (k ∷ ks) d h =
    let (new, ds) = d in
    let fresh = h k (ground (arith, eq_iff k k)) in
    let ih = length-mark_keys (k ∷ seen) ks ds (λ j m. ground (arith, h j, eq_iff k j, new, m)) in
    rw fresh (omega (arith, ih))

-- The keys of the input.
abbrev pub input_keys : CorrelationInput → List String
input_keys input = keys (flatten_events input)

abbrev pub KnownTo : List String → TimelineEvent → Type 0
KnownTo ks e = contains (event_key e) ks ≡ true

pub own_keys : (es : List TimelineEvent) → All (KnownTo (keys es)) es
unfolding contains
own_keys [] = tt
own_keys (e ∷ es) = (
  ground (arith, eq_iff (event_key e) (event_key e)),
  All-impl (KnownTo (keys es)) (KnownTo (event_key e ∷ keys es)) es (λ f h. ground (arith, h))
      (own_keys es),
)

keys-known :
    (k : String) (ks : List String) (es : List TimelineEvent)
    → All (KnownTo ks) es
    → contains k (keys es) ≡ true
    → contains k ks ≡ true
unfolding contains
keys-known k ks [] h m = ground arith
keys-known k ks (e ∷ es) h m =
    let (he, hes) = h in ground (arith, eq_iff (event_key e) k, keys-known k ks es hes)

group_keys-known :
    (k : String) (ks : List String) (gs : List CausalGroup)
    → All (GroupOf (KnownTo ks)) gs
    → contains k (group_keys gs) ≡ true
    → contains k ks ≡ true
unfolding contains
group_keys-known k ks [] h m = ground arith
group_keys-known k ks (g ∷ gs) h m =
    let (hg, hgs) = h in
    ground (
      arith,
      contains-append k (keys g.events) (group_keys gs),
      keys-known k ks g.events hg,
      group_keys-known k ks gs hgs,
    )

length-events_of :
    (at : ℕ) (name : String) (is : List Issue) → length (events_of at name is) ≡ length is
length-events_of at name [] = refl
length-events_of at name (i ∷ is) = ap suc (length-events_of at name is)

length-result_events :
    (at : ℕ) (name : String) (r : Option CheckResult)
    → length (result_events at name r) ≡ issue_count r
length-result_events at name none = refl
length-result_events at name (some r) = elim (Option-cases r.error) [
  | inl fine ↦ rw fine (length-events_of at name r.issues)
  | inr (text, bad) ↦ rw bad
]

length-flatten :
    (at : ℕ) (rs : List (String × Option CheckResult))
    → length (flatten_from at rs) ≡ count_issues rs
unfolding flatten_from count_issues
length-flatten at [] = refl
length-flatten at ((name, r) ∷ rs) =
    length-append (result_events at name r) (flatten_from at rs)
    ∙ ap₂ ◌+◌ (length-result_events at name r) (length-flatten at rs)

pub length-mark_groups :
    (gs : List CausalGroup) → Distinct (group_keys gs) → length (mark_groups [] gs) ≡ shown gs
unfolding contains
length-mark_groups gs d =
    let by_keys = ap length (mark_groups-keys [] gs) in
    let all_new = length-mark_keys [] (group_keys gs) d (λ k m. refl) in
    omega (arith, by_keys, all_new, shown-keys gs)

-- Groups with distinct known keys show at most as many events as there are issues.
pub shown_le_count :
    (input : CorrelationInput) (gs : List CausalGroup)
    → Distinct (group_keys gs)
    → All (GroupOf (KnownTo (input_keys input))) gs
    → shown gs ≤ count_issues input.results
shown_le_count input gs d known =
    let few =
      length_of_Distinct (group_keys gs) (input_keys input) d
        (λ k. group_keys-known k (input_keys input) gs known) in
    let all = length-keys (flatten_events input) ∙ length-flatten input.timestamp input.results in
    omega (arith, few, all, shown-keys gs)
