-- ===== src/Dashboard/Queue/Tests.antt =====
-- A channel with room for one request, and requests of two clusters.
use kube_assist_operator.Prelude.{
  ℕ, ◌≡◌, ◌↔◌, ◌⊎◌, refl, true, false, none, some, List, [], ◌∷◌, String, string_eq, arith, length,
  lookup, insert, delete, contains, remove, ◌++◌,
}
use kube_assist_operator.Dashboard.Queue.{
  EnrichmentRequest, Entries, System, Action, submit, receive, finish, new_enrichment_queue,
  first_free, promote, dispatch_rounds, dispatch_pending, enqueue, mark_done, act, run,
}
use kube_assist_operator.Dashboard.Queue.Dispatch.{Among}
use kube_assist_operator.Dashboard.Queue.Invariant.{IsValid, new-IsValid, run-IsValid}
use kube_assist_operator.Dashboard.Queue.Progress.{enqueue_result}
use kube_assist_operator.Dashboard.Queue.Drain.{IsIdle, drain, drained}

program : Unit {0}
unfolding run act enqueue mark_done dispatch_pending dispatch_rounds first_free promote lookup
    insert delete contains remove new_enrichment_queue
program = tt

abbrev in_order : Entries (Unit {0}) → Entries (Unit {0})
in_order m = m

abbrev request : String → ℕ → EnrichmentRequest (Unit {0})
request id n = record {
  cluster_id = id;
  generation = n;
  issue_hash = "";
  config_version = "";
  enqueued_at = n;
  snapshot = tt;
}

abbrev start : System (Unit {0})
start = record { queue = new_enrichment_queue 1; worker = none }

-- The worker is busy with `a`; `b` fills the channel; the newest of `a` replaces the second.
abbrev script : List (Action (Unit {0}))
script =
    submit (request "a" 1)
    ∷ receive
    ∷ submit (request "b" 2)
    ∷ submit (request "a" 3)
    ∷ submit (request "a" 4)
    ∷ []

after_script : (run in_order start script).queue ≡ record {
  ch = request "b" 2 ∷ [];
  pending = ("a", request "a" 4) ∷ [];
  inflight = "b" ∷ "a" ∷ [];
  capacity = 1;
}
unfolding program
after_script = refl

-- When `a` is done the channel is full, so that its newest request waits for `b` to be taken.
after_drain :
    (run in_order start
      (script ++ (finish ∷ receive ∷ finish ∷ receive ∷ finish ∷ []))).queue.pending
    ≡ []
unfolding program
after_drain = refl

start-IsValid : IsValid start
start-IsValid = new-IsValid 1

run-IsValid_example : IsValid (run in_order start script)
run-IsValid_example = run-IsValid in_order (λ m k. refl) script start start-IsValid

enqueue_result_example :
    let (q', ok) = enqueue in_order start.queue (request "a" 1) in
    ((ok ≡ false) ↔ (
      (contains "a" start.queue.inflight ≡ false)
      × (lookup "a" start.queue.pending ≡ none)
      × (length start.queue.ch ≡ start.queue.capacity)))
    × (ok ≡ false → q' ≡ start.queue)
    × (ok ≡ true → (lookup "a" q'.pending ≡ some (request "a" 1)) ⊎ Among (request "a" 1) q'.ch)
enqueue_result_example =
    enqueue_result in_order (λ m k. refl) start.queue [] (request "a" 1) start-IsValid.tracked

-- Three requests of two clusters wait, one of them at the worker.
drained_example : IsIdle (drain in_order 3 (run in_order start script))
unfolding program
drained_example =
    drained in_order (λ m k. refl) 3 (run in_order start script) (omega arith) run-IsValid_example
      (omega arith)
