-- ===== src/Causal/Dedup/Cover.antt =====
-- What the deduplication may lose.
use kube_assist_operator.Prelude.{
  ◌<◌, ◌≡◌, ◌≢◌, sym, true, ◌||◌, ltb, List, [], ◌∷◌, ◌++◌, String, string_eq, arith, length, All,
  contains, contains-append, Bool-cases, inl, inr,
}
use mathlib.Core.Path.{subst}
use text.Mathlib.TextEquality.{eq_iff}
use kube_assist_operator.Prelude.Sort.{sort_stable, sort_stable-All_inv}
use kube_assist_operator.Causal.Types.{TimelineEvent, CausalGroup, event_key}
use kube_assist_operator.Causal.Dedup.{
  claim, release, dedup_from, deduplicate_groups, more_confident,
}
use kube_assist_operator.Causal.Dedup.Claims.{keys, group_keys, claim-IsClaim, release-contains}

-- Of any two different keys of the group at least one is in one of the lists.
abbrev pub Covers : List String → List String → CausalGroup → Type 0
Covers claimed ks g =
    (j k : String)
    → j ≢ k
    → contains j (keys g.events) ≡ true
    → contains k (keys g.events) ≡ true
    → ((contains j claimed || contains j ks) || (contains k claimed || contains k ks)) ≡ true

claim-covers :
    (k : String) (claimed : List String) (es : List TimelineEvent)
    → contains k (keys es) ≡ true
    → contains k (claim claimed es).1 ≡ true
unfolding claim contains
claim-covers k claimed [] h = ground arith
claim-covers k claimed (e ∷ es) h = elim (Bool-cases (contains (event_key e) claimed)) [
  | inl seen ↦
      let c = claim-IsClaim claimed es in
      rw seen (ground (arith, c.grown k, claim-covers k claimed es, eq_iff (event_key e) k))
  | inr new ↦
      let c = claim-IsClaim (event_key e ∷ claimed) es in
      rw new (
        ground
          (arith, c.grown k, claim-covers k (event_key e ∷ claimed) es, eq_iff (event_key e) k))
]

one_key :
    (j k : String) (es : List TimelineEvent)
    → length es < 2
    → contains j (keys es) ≡ true
    → contains k (keys es) ≡ true
    → j ≡ k
unfolding contains
one_key j k [] h hj hk = ground arith
one_key j k (e ∷ []) h hj hk = ground (arith, eq_iff (event_key e) j, eq_iff (event_key e) k)
one_key j k (e ∷ f ∷ es) h hj hk = absurd (omega arith)

Covers-mono :
    (c c' ks ks' : List String) (gs : List CausalGroup)
    → ((k : String)
        → (contains k c || contains k ks) ≡ true
        → (contains k c' || contains k ks') ≡ true)
    → All (Covers c ks) gs
    → All (Covers c' ks') gs
Covers-mono c c' ks ks' [] grow h = tt
Covers-mono c c' ks ks' (g ∷ gs) grow h = (
  λ j k ne hj hk. ground (arith, grow j, grow k, h.0 j k ne hj hk),
  Covers-mono c c' ks ks' gs grow h.1,
)

dedup_from-Covers :
    (claimed : List String) (gs : List CausalGroup)
    → All (Covers claimed (group_keys (dedup_from claimed gs))) gs
unfolding dedup_from contains
dedup_from-Covers claimed [] = tt
dedup_from-Covers claimed (g ∷ gs) =
    let c = claim-IsClaim claimed g.events in
    let kept = (claim claimed g.events).0 in
    let claimed' = (claim claimed g.events).1 in
    elim (Bool-cases (ltb (length kept) 2)) [
      | inl small ↦
          let rest = group_keys (dedup_from (release claimed' kept) gs) in
          let out : dedup_from claimed (g ∷ gs) ≡ dedup_from (release claimed' kept) gs =
            rw (small, dedup_from) in
          subst (λ r. All (Covers claimed (group_keys r)) (g ∷ gs)) (sym out)
            (
              λ j k ne hj hk. ground (
                arith,
                claim-covers j claimed g.events hj,
                claim-covers k claimed g.events hk,
                c.grown j,
                c.grown k,
                one_key j k kept,
              ),
              Covers-mono (release claimed' kept) claimed rest rest gs
                  (λ k h. ground (arith, release-contains k claimed' kept, c.grown k, h))
                  (dedup_from-Covers (release claimed' kept) gs),
            )
      | inr large ↦
          let rest = group_keys (dedup_from claimed' gs) in
          let out : dedup_from claimed (g ∷ gs)
              ≡ record g { events = kept } ∷ dedup_from claimed' gs =
            rw (large, dedup_from) in
          subst (λ r. All (Covers claimed (group_keys r)) (g ∷ gs)) (sym out)
            (
              λ j k ne hj hk. ground (
                arith,
                claim-covers j claimed g.events hj,
                c.grown j,
                contains-append j (keys kept) rest,
              ),
              Covers-mono claimed' claimed rest (keys kept ++ rest) gs
                  (λ k h. ground (arith, contains-append k (keys kept) rest, c.grown k, h))
                  (dedup_from-Covers claimed' gs),
            )
    ]

-- The deduplication loses at most one issue key of each group: of any two different keys of a
-- group that it is given, at least one stands in the result.
pub deduplicate_groups-Covers :
    (groups : List CausalGroup) → All (Covers [] (group_keys (deduplicate_groups groups))) groups
unfolding deduplicate_groups
deduplicate_groups-Covers groups =
    sort_stable-All_inv more_confident (Covers [] (group_keys (deduplicate_groups groups))) groups
      (dedup_from-Covers [] (sort_stable more_confident groups))
