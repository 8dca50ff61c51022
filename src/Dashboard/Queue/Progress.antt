-- ===== src/Dashboard/Queue/Progress.antt =====
-- What a submission answers, and that no request is left behind.
use kube_assist_operator.Prelude.{
  ◌≡◌, ◌↔◌, refl, true, false, none, some, List, String, string_eq, arith, ltb, length, lookup,
  insert, contains, same_refl, lookup-insert, Bool-cases, Option-cases, inl, inr, ◌⊎◌,
}
use kube_assist_operator.Dashboard.Queue.{
  EnrichmentRequest, EnrichmentQueue, Entries, dispatch_pending, enqueue,
}
use kube_assist_operator.Dashboard.Queue.Dispatch.{
  Among, Among-append_one, IsTracked, IsDispatch, dispatch_pending-IsDispatch,
}
use kube_assist_operator.Dashboard.Queue.Invariant.{replace-IsTracked}

module _ {P : Type 0} (range : Entries P → Entries P)
    (same_entries : (m : Entries P) (k : String) → lookup k (range m) ≡ lookup k m) where
  -- A submission is refused exactly when nothing of its cluster is in flight or pending and the
  -- channel is full. Refused, it changes nothing; accepted, the request itself is in the channel
  -- or is what is pending for its cluster, in place of any older one.
  pub enqueue_result :
      (q : EnrichmentQueue P) (b : List String) (req : EnrichmentRequest P)
      → IsTracked b q
      → let (q', ok) = enqueue range q req in
        ((ok ≡ false) ↔ (
          (contains req.cluster_id q.inflight ≡ false)
          × (lookup req.cluster_id q.pending ≡ none)
          × (length q.ch ≡ q.capacity)))
        × (ok ≡ false → q' ≡ q)
        × (ok ≡ true → (lookup req.cluster_id q'.pending ≡ some req) ⊎ Among req q'.ch)
  unfolding enqueue
  enqueue_result q b req v = elim (Bool-cases (contains req.cluster_id q.inflight)) [
    | inl flying ↦
        rw (flying, enqueue) ((λ e. cc, λ h. ground arith), λ e. cc, λ e. inl (stored q.pending))
    | inr grounded ↦ elim (Option-cases (lookup req.cluster_id q.pending)) [
      | inr (old, at) ↦
          rw (grounded, at, enqueue)
            (
              (λ e. cc, λ h. ground arith),
              λ e. cc,
              λ e. dispatched.moved req.cluster_id req (stored q.pending),
            )
      | inl new ↦ elim (Bool-cases (ltb (length q.ch) q.capacity)) [
        | inl room ↦
            rw (grounded, new, room, enqueue)
              ((λ e. cc, λ h. ground arith), λ e. cc, λ e. inr (Among-append_one req q.ch))
        | inr full ↦
            rw (grounded, new, full, enqueue)
              ((λ e. (refl, refl, ground (arith, v.room)), λ h. refl), λ e. refl, λ e. cc)
      ]
    ]
  ]
    where
      stored : (m : Entries P) → lookup req.cluster_id (insert req.cluster_id req m) ≡ some req
      stored m =
          ground
            (arith, lookup-insert req.cluster_id req.cluster_id req m, same_refl req.cluster_id)

      dispatched :
          IsDispatch b
            (record q { pending = insert req.cluster_id req q.pending })
            (dispatch_pending range (record q { pending = insert req.cluster_id req q.pending }))
      dispatched =
          dispatch_pending-IsDispatch range same_entries b
            (record q { pending = insert req.cluster_id req q.pending })
            (replace-IsTracked b q req v)
