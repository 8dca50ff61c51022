-- ===== src/Causal/Dedup/Claims.antt =====
-- No issue is shown in two groups.
use kube_assist_operator.Prelude.{
  ◌≤◌, ◌≡◌, refl, true, false, ◌||◌, ltb, if◌then◌else◌, List, [], ◌∷◌, ◌++◌, map, String,
  string_eq, arith, length, All, contains, remove, Distinct, contains-append, contains-remove,
  Distinct-append, Bool-cases, inl, inr,
}
use text.Mathlib.TextEquality.{eq_iff}
use kube_assist_operator.Causal.Types.{TimelineEvent, CausalGroup, event_key}
use kube_assist_operator.Prelude.Sort.{sort_stable}
use kube_assist_operator.Causal.Dedup.{
  more_confident, claim, release, dedup_from, deduplicate_groups,
}

abbrev pub keys : List TimelineEvent → List String
keys = map event_key

abbrev pub group_keys : List CausalGroup → List String
group_keys [] = []
group_keys (g ∷ gs) = keys g.events ++ group_keys gs

-- What the inner loop gives: distinct new keys, and those on top of the old ones are claimed.
pub record IsClaim (claimed : List String) (out : List TimelineEvent × List String) : Type 0 where
  pub distinct : Distinct (keys out.0)
  pub fresh : (k : String) → contains k (keys out.0) ≡ true → contains k claimed ≡ false
  pub grown : (k : String) → contains k out.1 ≡ (contains k claimed || contains k (keys out.0))

pub claim-IsClaim :
    (claimed : List String) (es : List TimelineEvent) → IsClaim claimed (claim claimed es)
unfolding claim contains
claim-IsClaim claimed [] = record { distinct = tt; fresh = λ k h. cc; grown = λ k. ground arith }
claim-IsClaim claimed (e ∷ es) = elim (Bool-cases (contains (event_key e) claimed)) [
  | inl seen ↦ rw seen (claim-IsClaim claimed es)
  | inr new ↦
      let ih = claim-IsClaim (event_key e ∷ claimed) es in
      rw new (record {
        distinct = (
          ground (arith, ih.fresh (event_key e), eq_iff (event_key e) (event_key e)),
          ih.distinct,
        );
        fresh = λ k h. ground (arith, ih.fresh k, eq_iff (event_key e) k);
        grown = λ k. ground (arith, ih.grown k);
      })
]

pub release-contains :
    (k : String) (claimed : List String) (es : List TimelineEvent)
    → contains k (release claimed es) ≡ (if contains k (keys es) then false else contains k claimed)
unfolding release contains
release-contains k claimed [] = refl
release-contains k claimed (e ∷ es) = ground (
  arith,
  release-contains k (remove (event_key e) claimed) es,
  contains-remove (event_key e) k claimed,
)

record IsDedup (claimed : List String) (out : List CausalGroup) : Type 0 where
  distinct : Distinct (group_keys out)
  fresh : (k : String) → contains k (group_keys out) ≡ true → contains k claimed ≡ false
  large : All (λ g. 2 ≤ length g.events) out

dedup_from-IsDedup :
    (claimed : List String) (gs : List CausalGroup) → IsDedup claimed (dedup_from claimed gs)
unfolding dedup_from contains
dedup_from-IsDedup claimed [] = record { distinct = tt; fresh = λ k h. cc; large = tt }
dedup_from-IsDedup claimed (g ∷ gs) =
    let c = claim-IsClaim claimed g.events in
    let kept = (claim claimed g.events).0 in
    let claimed' = (claim claimed g.events).1 in
    elim (Bool-cases (ltb (length kept) 2)) [
      | inl small ↦
          let ih = dedup_from-IsDedup (release claimed' kept) gs in
          rw (small, dedup_from)
            (record {
              distinct = ih.distinct;
              fresh = λ k h.
                  ground
                    (arith, ih.fresh k h, release-contains k claimed' kept, c.fresh k, c.grown k);
              large = ih.large;
            })
      | inr large ↦
          let ih = dedup_from-IsDedup claimed' gs in
          let rest = group_keys (dedup_from claimed' gs) in
          rw (large, dedup_from)
            (record {
              distinct =
                  Distinct-append (keys kept) rest c.distinct ih.distinct
                    (λ k h. ground (arith, ih.fresh k h, c.grown k));
              fresh = λ k h.
                  ground
                    (arith, contains-append k (keys kept) rest, c.fresh k, c.grown k, ih.fresh k);
              large = (ground arith, ih.large);
            })
    ]

-- After the deduplication no issue key stands twice, in one group or in two, and every group has
-- at least two events.
pub deduplicate_groups-Distinct :
    (groups : List CausalGroup)
    → Distinct (group_keys (deduplicate_groups groups))
      × All (λ g. 2 ≤ length g.events) (deduplicate_groups groups)
unfolding deduplicate_groups
deduplicate_groups-Distinct groups = (d.distinct, d.large)
  where
    d : IsDedup [] (deduplicate_groups groups)
    d = dedup_from-IsDedup [] (sort_stable more_confident groups)
