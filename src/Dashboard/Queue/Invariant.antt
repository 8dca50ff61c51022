-- ===== src/Dashboard/Queue/Invariant.antt =====
-- What holds of the queue and its worker between two steps.
use kube_assist_operator.Prelude.{
  ℕ, ◌≡◌, refl, ap, ◌∙◌, Option, none, some, List, [], ◌∷◌, ◌++◌, String, string_eq, arith, ltb,
  length, lookup, insert, contains, remove, Distinct, contains-remove, lookup-insert, Bool-cases,
  Option-cases, inl, inr, ltb→lt,
}
use mathlib.Core.Path.{subst, ap₂}
use text.Mathlib.TextEquality.{eq_iff}
use kube_assist_operator.Dashboard.Queue.{
  EnrichmentRequest, EnrichmentQueue, Entries, System, Action, submit, receive, finish, mark,
  new_enrichment_queue, enqueue, mark_done, take_next, complete, act, run,
}
use kube_assist_operator.Dashboard.Queue.Dispatch.{
  ids, IsTracked, IsSettled, IsDispatch, contains-mark, enter-IsTracked,
  dispatch_pending-IsDispatch,
}

module _ {P : Type 0} where
  -- The cluster that the worker is busy with.
  abbrev pub busy : Option (EnrichmentRequest P) → List String
  busy none = []
  busy (some r) = r.cluster_id ∷ []

  -- While the worker waits, a request is pending only behind one of its own cluster, or for room.
  pub record IsValid (s : System P) : Type 0 where
    pub tracked : IsTracked (busy s.worker) s.queue
    pub settled : s.worker ≡ none → IsSettled s.queue

  pub new-IsValid :
      (capacity : ℕ) → IsValid (record { queue = new_enrichment_queue capacity; worker = none })
  unfolding new_enrichment_queue lookup contains
  new-IsValid capacity = record {
    tracked = record {
      distinct = tt;
      tracked = λ k. refl;
      room = omega arith;
      keyed = λ k r h. ground arith;
    };
    settled = λ w. record { settled = λ room k r h. ground arith };
  }

  pub replace-IsTracked :
      (b : List String) (q : EnrichmentQueue P) (req : EnrichmentRequest P)
      → IsTracked b q
      → IsTracked b (record q { pending = insert req.cluster_id req q.pending })
  replace-IsTracked b q req v = record {
    distinct = v.distinct;
    tracked = v.tracked;
    room = v.room;
    keyed = λ k r h.
        ground (
          arith,
          lookup-insert req.cluster_id k req q.pending,
          eq_iff req.cluster_id k,
          v.keyed k r,
        );
  }

module _ {P : Type 0} (range : Entries P → Entries P)
    (same_entries : (m : Entries P) (k : String) → lookup k (range m) ≡ lookup k m) where
  enqueue-IsValid :
      (q : EnrichmentQueue P) (w : Option (EnrichmentRequest P)) (req : EnrichmentRequest P)
      → IsValid (record { queue = q; worker = w })
      → IsValid (record { queue = (enqueue range q req).0; worker = w })
  unfolding enqueue
  enqueue-IsValid q w req v = elim (Bool-cases (contains req.cluster_id q.inflight)) [
    | inl flying ↦ rw flying (record {
      tracked = replace-IsTracked (busy w) q req v.tracked;
      settled = λ e. record {
        settled = λ room k r h. ground (
          arith,
          (v.settled e).settled room k r,
          lookup-insert req.cluster_id k req q.pending,
          eq_iff req.cluster_id k,
        );
      };
    })
    | inr grounded ↦ elim (Option-cases (lookup req.cluster_id q.pending)) [
      | inr (old, at) ↦
          let d =
            dispatch_pending-IsDispatch range same_entries (busy w)
              (record q { pending = insert req.cluster_id req q.pending })
              (replace-IsTracked (busy w) q req v.tracked) in
          rw (grounded, at, enqueue) (record { tracked = d.tracked; settled = λ e. d.settled })
      | inl new ↦ elim (Bool-cases (ltb (length q.ch) q.capacity)) [
        | inl room ↦
            rw (grounded, new, room, enqueue)
              (record {
                tracked =
                    enter-IsTracked (busy w) q
                      (record q {
                        ch = q.ch ++ (req ∷ []);
                        inflight = mark req.cluster_id q.inflight;
                      })
                      req v.tracked grounded (ltb→lt _ _ room) refl refl refl v.tracked.keyed;
                settled = λ e. record {
                  settled = λ room' k r h. ground (
                    arith,
                    contains-mark req.cluster_id k q.inflight,
                    (v.settled e).settled (ltb→lt _ _ room) k r h,
                  );
                };
              })
        | inr full ↦ rw (grounded, new, full, enqueue) v
      ]
    ]
  ]

  finish-IsValid :
      (q : EnrichmentQueue P) (r : EnrichmentRequest P)
      → IsValid (record { queue = q; worker = some r })
      → IsValid (record { queue = mark_done range q r.cluster_id; worker = none })
  unfolding mark_done contains
  finish-IsValid q r v = record { tracked = d.tracked; settled = λ e. d.settled }
    where
      cleared : IsTracked [] (record q { inflight = remove r.cluster_id q.inflight })
      cleared = record {
        distinct = v.tracked.distinct.1;
        tracked = λ k. ground (
          arith,
          contains-remove r.cluster_id k q.inflight,
          v.tracked.tracked k,
          v.tracked.distinct.0,
          eq_iff r.cluster_id k,
        );
        room = v.tracked.room;
        keyed = v.tracked.keyed;
      }

      d :
          IsDispatch []
            (record q { inflight = remove r.cluster_id q.inflight })
            (mark_done range q r.cluster_id)
      d =
          dispatch_pending-IsDispatch range same_entries []
            (record q { inflight = remove r.cluster_id q.inflight }) cleared

  receive-IsValid :
      (s : System P) (w : Option (EnrichmentRequest P)) (ch : List (EnrichmentRequest P))
      → s.worker ≡ w
      → s.queue.ch ≡ ch
      → IsValid s
      → IsValid (take_next s w ch)
  unfolding take_next
  receive-IsValid s (some b) ch ew ec v = v
  receive-IsValid s none [] ew ec v = v
  receive-IsValid s none (r ∷ ch) ew ec v = record {
    tracked = record {
      distinct = subst Distinct held v.tracked.distinct;
      tracked = λ k. v.tracked.tracked k ∙ ap (contains k) held;
      room = omega (arith, ap length ec, v.tracked.room);
      keyed = v.tracked.keyed;
    };
    settled = λ e. absurd (ground arith);
  }
    where
      held : busy s.worker ++ ids s.queue.ch ≡ r.cluster_id ∷ ids ch
      held = ap₂ (λ w c. busy w ++ ids c) ew ec

  complete-IsValid :
      (s : System P) (w : Option (EnrichmentRequest P))
      → s.worker ≡ w
      → IsValid s
      → IsValid (complete range s w)
  unfolding complete
  complete-IsValid s none e v = v
  complete-IsValid s (some r) e v =
      finish-IsValid s.queue r (subst (λ w. IsValid (record { queue = s.queue; worker = w })) e v)

  -- From a new queue, or any valid one, every sequence of submissions, receipts and completions
  -- keeps this: `inflight` is exactly the set of the clusters in the channel and at the worker,
  -- each of them once; the channel is within its capacity; and while the worker waits, a request
  -- is pending only behind one of its own cluster or for room in the channel.
  pub run-IsValid :
      (actions : List (Action P)) (s : System P) → IsValid s → IsValid (run range s actions)
  unfolding run act
  run-IsValid [] s v = v
  run-IsValid (submit r ∷ as_) s v =
      run-IsValid as_ (act range s (submit r)) (enqueue-IsValid s.queue s.worker r v)
  run-IsValid (receive ∷ as_) s v =
      run-IsValid as_ (act range s receive) (receive-IsValid s s.worker s.queue.ch refl refl v)
  run-IsValid (finish ∷ as_) s v =
      run-IsValid as_ (act range s finish) (complete-IsValid s s.worker refl v)
