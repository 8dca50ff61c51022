-- ===== src/Dashboard/Queue/Drain.antt =====
-- internal/dashboard/enrichment_queue.go: no request is left behind.
use kube_assist_operator.Prelude.{
  ℕ, zero, suc, ◌+◌, ◌-◌, ◌<◌, ◌≤◌, ◌≡◌, refl, sym, ap, ◌∙◌, false, Option, none, some, List, [],
  ◌∷◌, ◌++◌, String, string_eq, arith, ltb, length, length-append, lookup, contains,
  length-delete-lt, remove, same_refl, Bool-cases, Option-cases, inl, inr,
}
use mathlib.Core.Path.{ap₂}
use kube_assist_operator.Dashboard.Queue.{
  EnrichmentRequest, EnrichmentQueue, Entries, System, receive, finish, first_free, promote,
  dispatch_rounds, dispatch_pending, mark_done, take_next, complete, act, run,
}
use kube_assist_operator.Dashboard.Queue.Dispatch.{ids, first_free-some}
use kube_assist_operator.Dashboard.Queue.Invariant.{busy, IsValid, run-IsValid}

module _ {P : Type 0} where
  -- The requests that are in the channel or pending, and the one that the worker processes.
  abbrev pub queued : EnrichmentQueue P → ℕ
  queued q = length q.ch + length q.pending

  abbrev pub waiting : System P → ℕ
  waiting s = queued s.queue + length (busy s.worker)

  -- Nothing is left.
  pub record IsIdle (s : System P) : Type 0 where
    pub worker : s.worker ≡ none
    pub ch : s.queue.ch ≡ []
    pub pending : s.queue.pending ≡ []
    pub inflight : (k : String) → contains k s.queue.inflight ≡ false

  no_entries : (m : Entries P) → ((k : String) → lookup k m ≡ none) → m ≡ []
  unfolding lookup
  no_entries [] h = refl
  no_entries ((k, r) ∷ m) h = absurd (ground (arith, h k, same_refl k))

  -- From a queue to a later one, it holds no more, and the same channel's room.
  pub record Shrinks (q q' : EnrichmentQueue P) : Type 0 where
    pub queued_le : queued q' ≤ queued q
    pub capacity : q'.capacity ≡ q.capacity

  Shrinks-trans : (q q' q'' : EnrichmentQueue P) → Shrinks q q' → Shrinks q' q'' → Shrinks q q''
  Shrinks-trans q q' q'' g h = record {
    queued_le = omega (arith, g.queued_le, h.queued_le);
    capacity = h.capacity ∙ g.capacity;
  }

module _ {P : Type 0} (range : Entries P → Entries P) where
  -- The worker takes the next request, if it waits, and finishes what it has.
  abbrev pub work : System P → System P
  work s = run range s (receive ∷ finish ∷ [])

  abbrev pub drain : ℕ → System P → System P
  drain zero s = s
  drain (suc n) s = drain n (work s)

module _ {P : Type 0} (range : Entries P → Entries P)
    (same_entries : (m : Entries P) (k : String) → lookup k (range m) ≡ lookup k m) where
  drained_now :
      (s : System P)
      → 0 < s.queue.capacity
      → IsValid s
      → s.worker ≡ none
      → s.queue.ch ≡ []
      → IsIdle s
  unfolding contains
  drained_now s p v idle empty = record {
    worker = idle;
    ch = empty;
    pending = no_entries s.queue.pending none_pending;
    inflight = quiet;
  }
    where
      quiet : (k : String) → contains k s.queue.inflight ≡ false
      quiet k = v.tracked.tracked k ∙ ap₂ (λ w c. contains k (busy w ++ ids c)) idle empty

      none_pending : (k : String) → lookup k s.queue.pending ≡ none
      none_pending k = elim (Option-cases (lookup k s.queue.pending)) [
        | inl none_left ↦ none_left
        | inr (r, at) ↦
            let room : length s.queue.ch < s.queue.capacity = omega (arith, ap length empty, p) in
            absurd (ground (arith, (v.settled idle).settled room k r at, quiet k))
      ]

  dispatch_rounds-Shrinks : (n : ℕ) (q : EnrichmentQueue P) → Shrinks q (dispatch_rounds range n q)
  unfolding dispatch_rounds promote
  dispatch_rounds-Shrinks zero q = record { queued_le = omega arith; capacity = refl }
  dispatch_rounds-Shrinks (suc n) q =
      elim (Option-cases (first_free q.inflight (range q.pending))) [
        | inl stop ↦
            rw (stop, dispatch_rounds) (record { queued_le = omega arith; capacity = refl })
        | inr ((k, r), go) ↦
            let found = (first_free-some q.inflight (range q.pending) k r go).1 in
            let at = sym (same_entries q.pending k) ∙ found in
            elim (Bool-cases (ltb (length q.ch) q.capacity)) [
              | inl room ↦
                  let promoted : Shrinks q (promote q k r) = record {
                    queued_le =
                        omega
                          (arith, length-append q.ch (r ∷ []), length-delete-lt k r q.pending at);
                    capacity = refl;
                  } in
                  rw (go, room, dispatch_rounds)
                    (Shrinks-trans q (promote q k r) _ promoted
                      (dispatch_rounds-Shrinks n (promote q k r)))
              | inr full ↦
                  rw (go, full, dispatch_rounds)
                    (record { queued_le = omega arith; capacity = refl })
            ]
      ]

  mark_done-Shrinks : (q : EnrichmentQueue P) (id : String) → Shrinks q (mark_done range q id)
  unfolding mark_done dispatch_pending
  mark_done-Shrinks q id =
      let cleared = record q { inflight = remove id q.inflight } in
      let done = dispatch_rounds-Shrinks (length q.pending) cleared in
      record { queued_le = done.queued_le; capacity = done.capacity }

  -- One request fewer, if there is one.
  pub record IsWorked (s s' : System P) : Type 0 where
    pub waiting_le : waiting s' ≤ waiting s - 1
    pub capacity : s'.queue.capacity ≡ s.queue.capacity

  complete-IsWorked :
      (s : System P) (r : EnrichmentRequest P)
      → s.worker ≡ some r
      → IsWorked s (complete range s (some r))
  unfolding complete
  complete-IsWorked s r at =
      let done = mark_done-Shrinks s.queue r.cluster_id in
      record {
        waiting_le = omega (arith, done.queued_le, ap (λ w. length (busy w)) at);
        capacity = done.capacity;
      }

  work-IsWorked :
      (s : System P)
      → 0 < s.queue.capacity
      → IsValid s
      → (w : Option (EnrichmentRequest P)) (ch : List (EnrichmentRequest P)) → s.worker ≡ w
      → s.queue.ch ≡ ch
      → IsWorked s (work range s)
  unfolding run act take_next complete
  work-IsWorked s p v none [] idle empty =
      let e : take_next s s.worker s.queue.ch ≡ s = ap₂ (take_next s) idle empty in
      let gone = ap length (drained_now s p v idle empty).pending in
      let same : work range s ≡ s =
        ap (λ t. complete range t t.worker) e ∙ ap (complete range s) idle in
      rw same (record {
        waiting_le = omega (arith, gone, ap length empty, ap (λ w. length (busy w)) idle);
        capacity = refl;
      })
  work-IsWorked s p v none (r ∷ ch) idle more =
      let t : System P = record { queue = record (s.queue) { ch = ch }; worker = some r } in
      let e : take_next s s.worker s.queue.ch ≡ t = rw (idle, more, take_next) refl in
      let done = complete-IsWorked t r refl in
      rw e (record {
        waiting_le = omega (arith, done.waiting_le, ap length more, ap (λ w. length (busy w)) idle);
        capacity = done.capacity;
      })
  work-IsWorked s p v (some r) ch at e =
      let e : take_next s s.worker s.queue.ch ≡ s = ap₂ (take_next s) at refl in
      let same : work range s ≡ complete range s (some r) =
        ap (λ t. complete range t t.worker) e ∙ ap (complete range s) at in
      rw same (complete-IsWorked s r at)

  -- Nothing is left behind: when no more is submitted, a worker that takes and finishes as many requests as wait
  -- in the channel, in `pending` and with itself, or more, ends with an empty channel, with nothing pending
  -- and with no cluster in flight, from every state that is valid and has a channel.
  pub drained :
      (n : ℕ) (s : System P)
      → 0 < s.queue.capacity
      → IsValid s
      → waiting s ≤ n
      → IsIdle (drain range n s)
  drained zero s p v h =
      drained_now s p v (no_worker s.worker (omega (arith, h)))
        (no_request s.queue.ch (omega (arith, h)))
    where
      no_worker : (w : Option (EnrichmentRequest P)) → length (busy w) ≤ 0 → w ≡ none
      no_worker none h = refl
      no_worker (some r) h = absurd (ground (arith, h))

      no_request : (ch : List (EnrichmentRequest P)) → length ch ≤ 0 → ch ≡ []
      no_request [] h = refl
      no_request (r ∷ ch) h = absurd (ground (arith, h))
  drained (suc n) s p v h =
      let worked = work-IsWorked s p v s.worker s.queue.ch refl refl in
      drained n (work range s) (omega (arith, p, worked.capacity))
        (run-IsValid range same_entries (receive ∷ finish ∷ []) s v)
        (omega (arith, h, worked.waiting_le))
