-- ===== src/Dashboard/Queue/Dispatch.antt =====
-- The dispatch loop: it keeps track of what is in flight, and stops only for want of room.
use kube_assist_operator.Prelude.{
  ℕ, zero, suc, ◌≤◌, ◌<◌, ◌≡◌, refl, sym, ap, ◌∙◌, true, false, ◌||◌, none, some, List, [], ◌∷◌,
  ◌++◌, map, String, string_eq, arith, ltb, length, length-append, lookup, contains, Distinct, ◌==◌,
  contains-append, Distinct-append_one, lookup-delete, length-delete-lt, Bool-cases, Option-cases,
  inl, inr, ◌⊎◌, ltb→lt, drop_of_length-le,
}
use text.Mathlib.TextEquality.{eq_iff}
use mathlib.Core.Path.{subst}
use mathlib.Core.List.{append_assoc, map-append}
use kube_assist_operator.Dashboard.Queue.{
  EnrichmentRequest, EnrichmentQueue, Entries, mark, first_free, promote, dispatch_rounds,
  dispatch_pending,
}

pub contains-mark :
    (k j : String) (ks : List String) → contains j (mark k ks) ≡ (k == j || contains j ks)
unfolding contains
contains-mark k j ks = elim (Bool-cases (contains k ks)) [
  | inl e ↦ ground (arith, eq_iff k j)
  | inr e ↦ rw e
]

module _ {P : Type 0} where
  abbrev pub ids : List (EnrichmentRequest P) → List String
  ids = map (λ r. r.cluster_id)

  -- `inflight` is the set of the clusters in the channel and of `busy`, each of them once.
  pub record IsTracked (busy : List String) (q : EnrichmentQueue P) : Type 0 where
    pub distinct : Distinct (busy ++ ids q.ch)
    pub tracked : (k : String) → contains k q.inflight ≡ contains k (busy ++ ids q.ch)
    pub room : length q.ch ≤ q.capacity
    pub keyed :
        (k : String) (r : EnrichmentRequest P) → lookup k q.pending ≡ some r → r.cluster_id ≡ k

  -- A request waits only behind one of its own cluster, or for room in the channel.
  pub record IsSettled (q : EnrichmentQueue P) : Type 0 where
    pub settled :
        length q.ch < q.capacity
        → (k : String) (r : EnrichmentRequest P) → lookup k q.pending ≡ some r
        → contains k q.inflight ≡ true

  pub ids-append_one :
      (busy : List String) (ch : List (EnrichmentRequest P)) (r : EnrichmentRequest P)
      → busy ++ ids (ch ++ (r ∷ [])) ≡ (busy ++ ids ch) ++ (r.cluster_id ∷ [])
  ids-append_one busy ch r =
      ap (λ l. busy ++ l) (map-append (λ r. r.cluster_id) ch (r ∷ []))
      ∙ sym (append_assoc busy (ids ch) (r.cluster_id ∷ []))

  -- A request of a cluster that is not in flight enters the channel.
  pub enter-IsTracked :
      (busy : List String) (q q' : EnrichmentQueue P) (r : EnrichmentRequest P)
      → IsTracked busy q
      → contains r.cluster_id q.inflight ≡ false
      → length q.ch < q.capacity
      → q'.ch ≡ q.ch ++ (r ∷ [])
      → q'.inflight ≡ mark r.cluster_id q.inflight
      → q'.capacity ≡ q.capacity
      → ((k : String) (p : EnrichmentRequest P) → lookup k q'.pending ≡ some p → p.cluster_id ≡ k)
      → IsTracked busy q'
  unfolding contains
  enter-IsTracked busy q q' r v free room ch fly cap keyed = record {
    distinct = subst Distinct (sym eq) (
        Distinct-append_one (busy ++ ids q.ch) r.cluster_id v.distinct
          (sym (v.tracked r.cluster_id) ∙ free));
    tracked = λ k. in_flight k;
    room = ground (arith, length-append q.ch (r ∷ []));
    keyed = keyed;
  }
    where
      eq : busy ++ ids q'.ch ≡ (busy ++ ids q.ch) ++ (r.cluster_id ∷ [])
      eq = ap (λ l. busy ++ ids l) ch ∙ ids-append_one busy q.ch r

      in_flight : (k : String) → contains k q'.inflight ≡ contains k (busy ++ ids q'.ch)
      in_flight k = ground (
        arith,
        ap (contains k) eq,
        ap (contains k) fly,
        contains-mark r.cluster_id k q.inflight,
        contains-append k (busy ++ ids q.ch) (r.cluster_id ∷ []),
        v.tracked k,
      )

  pub first_free-some :
      (inflight : List String) (m : Entries P) (k : String) (r : EnrichmentRequest P)
      → first_free inflight m ≡ some (k, r)
      → (contains k inflight ≡ false) × (lookup k m ≡ some r)
  unfolding first_free lookup
  first_free-some inflight [] k r h = ground arith
  first_free-some inflight ((j, p) ∷ m) k r h =
      ground (arith, eq_iff j k, first_free-some inflight m k r)

  first_free-none :
      (inflight : List String) (m : Entries P) (k : String) (r : EnrichmentRequest P)
      → first_free inflight m ≡ none
      → lookup k m ≡ some r
      → contains k inflight ≡ true
  unfolding first_free lookup
  first_free-none inflight [] k r h e = ground arith
  first_free-none inflight ((j, p) ∷ m) k r h e =
      ground (arith, eq_iff j k, first_free-none inflight m k r)

  -- `r` is one of the list.
  abbrev pub Among : EnrichmentRequest P → List (EnrichmentRequest P) → Type 0
  Among r [] = ⊥
  Among r (x ∷ xs) = (x ≡ r) ⊎ Among r xs

  pub Among-append_left :
      (r : EnrichmentRequest P) (xs ys : List (EnrichmentRequest P))
      → Among r xs
      → Among r (xs ++ ys)
  Among-append_left r [] ys h = absurd h
  Among-append_left r (x ∷ xs) ys (inl e) = inl e
  Among-append_left r (x ∷ xs) ys (inr h) = inr (Among-append_left r xs ys h)

  pub Among-append_one :
      (r : EnrichmentRequest P) (xs : List (EnrichmentRequest P)) → Among r (xs ++ (r ∷ []))
  Among-append_one r [] = inl refl
  Among-append_one r (x ∷ xs) = inr (Among-append_one r xs)

  -- What a dispatch makes of a queue: no request is lost on the way from `pending` to the channel.
  pub record IsDispatch (busy : List String) (q q' : EnrichmentQueue P) : Type 0 where
    pub tracked : IsTracked busy q'
    pub settled : IsSettled q'
    pub kept : (r : EnrichmentRequest P) → Among r q.ch → Among r q'.ch
    pub moved :
        (k : String) (r : EnrichmentRequest P)
        → lookup k q.pending ≡ some r
        → (lookup k q'.pending ≡ some r) ⊎ Among r q'.ch

  promote-IsTracked :
      (busy : List String) (q : EnrichmentQueue P) (k : String) (r : EnrichmentRequest P)
      → IsTracked busy q
      → contains k q.inflight ≡ false
      → lookup k q.pending ≡ some r
      → length q.ch < q.capacity
      → IsTracked busy (promote q k r)
  unfolding promote
  promote-IsTracked busy q k r v free at room =
      enter-IsTracked busy q (promote q k r) r v (rw (v.keyed k r at) free) room refl
        (rw (v.keyed k r at)) refl
        (λ j p h. ground (arith, lookup-delete k j q.pending, v.keyed j p))

  -- A promotion followed by a dispatch is a dispatch.
  promote-IsDispatch :
      (busy : List String) (q q' : EnrichmentQueue P) (k : String) (r : EnrichmentRequest P)
      → lookup k q.pending ≡ some r
      → IsDispatch busy (promote q k r) q'
      → IsDispatch busy q q'
  unfolding promote
  promote-IsDispatch busy q q' k r at d = record {
    tracked = d.tracked;
    settled = d.settled;
    kept = λ p m. d.kept p (Among-append_left p q.ch (r ∷ []) m);
    moved = λ j p here. elim (Bool-cases (k == j)) [
      | inl same ↦
          let arrived = d.kept r (Among-append_one r q.ch) in
          let e : r ≡ p = ground (arith, eq_iff k j) in inr (subst (λ x. Among x q'.ch) e arrived)
      | inr other ↦ d.moved j p (ground (arith, lookup-delete k j q.pending))
    ];
  }

module _ {P : Type 0} (range : Entries P → Entries P)
    (same_entries : (m : Entries P) (k : String) → lookup k (range m) ≡ lookup k m) where
  dispatch_rounds-IsDispatch :
      (n : ℕ) (busy : List String) (q : EnrichmentQueue P)
      → IsTracked busy q
      → length q.pending ≤ n
      → IsDispatch busy q (dispatch_rounds range n q)
  unfolding dispatch_rounds lookup
  dispatch_rounds-IsDispatch zero busy q v h = record {
    tracked = v;
    settled = record {
      settled = λ room k r at.
          let empty : q.pending ≡ [] = drop_of_length-le 0 q.pending h in
          ground (arith, ap (lookup k) empty);
    };
    kept = λ r m. m;
    moved = λ k r m. inl m;
  }
  dispatch_rounds-IsDispatch (suc n) busy q v h =
      elim (Option-cases (first_free q.inflight (range q.pending))) [
        | inl stop ↦
            rw (stop, dispatch_rounds)
              (record {
                tracked = v;
                settled = record {
                  settled = λ room k r at.
                      first_free-none q.inflight (range q.pending) k r stop
                        (same_entries q.pending k ∙ at);
                };
                kept = λ r m. m;
                moved = λ k r m. inl m;
              })
        | inr ((k, r), go) ↦
            let (free, at') = first_free-some q.inflight (range q.pending) k r go in
            let at = sym (same_entries q.pending k) ∙ at' in
            elim (Bool-cases (ltb (length q.ch) q.capacity)) [
              | inl room ↦
                  let next =
                    dispatch_rounds-IsDispatch n busy (promote q k r)
                      (promote-IsTracked busy q k r v free at (ltb→lt _ _ room))
                      (unfold promote in omega (arith, length-delete-lt k r q.pending at)) in
                  rw (go, room, dispatch_rounds) (promote-IsDispatch busy q _ k r at next)
              | inr full ↦
                  rw (go, full, dispatch_rounds)
                    (record {
                      tracked = v;
                      settled = record { settled = λ room j p m. ground arith };
                      kept = λ r m. m;
                      moved = λ k r m. inl m;
                    })
            ]
      ]

  pub dispatch_pending-IsDispatch :
      (busy : List String) (q : EnrichmentQueue P)
      → IsTracked busy q
      → IsDispatch busy q (dispatch_pending range q)
  unfolding dispatch_pending
  dispatch_pending-IsDispatch busy q v =
      dispatch_rounds-IsDispatch (length q.pending) busy q v (omega arith)
