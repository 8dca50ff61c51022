-- ===== src/Dashboard/Queue.antt =====
-- internal/dashboard/enrichment_queue.go: the queue of AI enrichment requests, with one worker.
-- `ch` is the buffered channel, oldest first; `pending` and `inflight` are the maps of the code.
-- The mutex makes each method one step; the worker's receive from the channel is a step of its
-- own. Go does not specify the order in which `range` visits a map: it is a parameter.
pub mod Dispatch
pub mod Invariant
pub mod Progress
pub mod Drain
mod Tests
use kube_assist_operator.Prelude.{
  ℕ, zero, suc, ◌+◌, Bool, true, false, Option, none, some, List, [], ◌∷◌, ◌++◌, String, ltb, eqb,
  if◌then◌else◌, length, lookup, insert, delete, contains, remove, string_eq,
}

-- The snapshot that the worker enriches is passed through: a parameter type.
pub record EnrichmentRequest (P : Type 0) : Type 0 where
  pub cluster_id : String
  pub generation : ℕ
  pub issue_hash : String
  pub config_version : String
  pub enqueued_at : ℕ
  pub snapshot : P

pub record EnrichmentQueue (P : Type 0) : Type 0 where
  pub ch : List (EnrichmentRequest P)
  pub pending : List (String × EnrichmentRequest P)
  pub inflight : List String
  pub capacity : ℕ

abbrev pub Entries : Type 0 → Type 0
Entries P = List (String × EnrichmentRequest P)

-- `q.inflight[id] = struct{}{}`
abbrev pub mark : String → List String → List String
mark k ks = if contains k ks then ks else k ∷ ks

-- The queue with its single worker, which holds the request that it is processing.
pub record System (P : Type 0) : Type 0 where
  pub queue : EnrichmentQueue P
  pub worker : Option (EnrichmentRequest P)

pub data Action (P : Type 0) : Type 0 where
  submit : EnrichmentRequest P → Action P
  receive : Action P
  finish : Action P

module _ {P : Type 0} where
  unfoldable pub new_enrichment_queue : ℕ → EnrichmentQueue P
  new_enrichment_queue capacity = record {
    ch = [];
    pending = [];
    inflight = [];
    capacity = if eqb capacity 0 then 16 else capacity;
  }

  -- The inner loop of `dispatchPendingLocked`: the first entry that is not in flight.
  unfoldable pub first_free : List String → Entries P → Option (String × EnrichmentRequest P)
  first_free inflight [] = none
  first_free inflight ((k, r) ∷ m) =
      let rest = first_free inflight m in if contains k inflight then rest else some (k, r)

  -- `q.ch <- *pendingReq` with what follows it.
  unfoldable pub promote : EnrichmentQueue P → String → EnrichmentRequest P → EnrichmentQueue P
  promote q k r = record q {
    ch = q.ch ++ (r ∷ []);
    pending = delete k q.pending;
    inflight = mark k q.inflight;
  }

  -- The number of pending and in-flight items.
  unfoldable pub depth : EnrichmentQueue P → ℕ
  depth q = length q.pending + length q.inflight

  -- `case req := <-q.ch`, when the worker waits; it blocks on an empty channel.
  unfoldable pub take_next :
      System P → Option (EnrichmentRequest P) → List (EnrichmentRequest P) → System P
  take_next s (some busy) ch = s
  take_next s none [] = s
  take_next s none (r ∷ ch) = record { queue = record (s.queue) { ch = ch }; worker = some r }

module _ {P : Type 0} (range : Entries P → Entries P) where
  -- `dispatchPendingLocked` on fuel; each round takes an entry out of `pending`.
  unfoldable pub dispatch_rounds : ℕ → EnrichmentQueue P → EnrichmentQueue P
  dispatch_rounds zero q = q
  dispatch_rounds (suc n) q = elim (first_free q.inflight (range q.pending)) [
    | none ↦ q
    | some (k, r) ↦ elim (ltb (length q.ch) q.capacity) [
      | true ↦ dispatch_rounds n (promote q k r)
      | false ↦ q
    ]
  ]

  unfoldable pub dispatch_pending : EnrichmentQueue P → EnrichmentQueue P
  dispatch_pending q = dispatch_rounds (length q.pending) q

  -- The boolean is the result, `true` for an accepted request.
  unfoldable pub enqueue : EnrichmentQueue P → EnrichmentRequest P → EnrichmentQueue P × Bool
  enqueue q req =
      if contains req.cluster_id q.inflight
      then (record q { pending = insert req.cluster_id req q.pending }, true)
      else elim (lookup req.cluster_id q.pending) [
        | some old ↦
            (dispatch_pending (record q { pending = insert req.cluster_id req q.pending }), true)
        | none ↦
            if ltb (length q.ch) q.capacity
            then (
              record q { ch = q.ch ++ (req ∷ []); inflight = mark req.cluster_id q.inflight },
              true,
            )
            else (q, false)
      ]

  unfoldable pub mark_done : EnrichmentQueue P → String → EnrichmentQueue P
  mark_done q cluster_id = dispatch_pending (record q { inflight = remove cluster_id q.inflight })

  -- The deferred `markDone` of the handler.
  unfoldable pub complete : System P → Option (EnrichmentRequest P) → System P
  complete s none = s
  complete s (some r) = record { queue = mark_done s.queue r.cluster_id; worker = none }

  unfoldable pub act : System P → Action P → System P
  unfolding take_next complete
  act s (submit r) = record s { queue = (enqueue s.queue r).0 }
  act s receive = take_next s s.worker s.queue.ch
  act s finish = complete s s.worker

  unfoldable pub run : System P → List (Action P) → System P
  run s [] = s
  run s (a ∷ as_) = run (act s a) as_
