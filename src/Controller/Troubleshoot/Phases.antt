-- ===== src/Controller/Troubleshoot/Phases.antt =====
-- internal/controller/troubleshootrequest_controller.go: how `Reconcile` moves a TroubleshootRequest
-- through its phases.
use kube_assist_operator.Prelude.{
  ◌≡◌, ◌⊎◌, refl, ◌∙◌, Bool, true, false, ◌&&◌, ◌||◌, Option, none, some, List, [], ◌∷◌, String,
  string_eq, ◌==◌, if◌then◌else◌, Bool-cases, Option-cases, inl, inr, length,
}
use kube_assist_operator.Prelude.Texts.{concat}
use kube_assist_operator.Prelude.Numbers.{show}
use kube_assist_operator.Checker.Workload.Pods.{Pod}
use kube_assist_operator.Controller.Troubleshoot.{
  phase_running, phase_completed, phase_failed, Condition, TroubleshootRequest, Run, Found,
  found_pods, find_failed, find_target_pods, Outcome, done, failure, panicked, requeue_after,
  is_set, asks_for, set_condition, set_failed, collect_logs_step, collect_events_step, finish,
  execute, reconcile,
}

-- The work is over, or a reconcile has begun it.
unfoldable pub is_over : {C : Type 0} → TroubleshootRequest C → Bool
is_over tr = tr.status.phase == phase_completed || tr.status.phase == phase_failed

unfoldable pub is_under_way : {C : Type 0} → TroubleshootRequest C → Bool
is_under_way tr = tr.status.phase == phase_running && is_set tr.status.started_at

-- Whether the target has pods, as far as the API says.
unfoldable pub has_pods : Found → Bool
has_pods (find_failed error) = false
has_pods (found_pods []) = false
has_pods (found_pods (p ∷ ps)) = true

Found-cases :
    (found : Found)
    → ((error : String) × (found ≡ find_failed error))
      ⊎ ((found ≡ found_pods []) ⊎ ((p : Pod) × (ps : List Pod) × (found ≡ found_pods (p ∷ ps))))
Found-cases (find_failed error) = inl (error, refl)
Found-cases (found_pods []) = inr (inl refl)
Found-cases (found_pods (p ∷ ps)) = inr (inr (p, ps, refl))

-- The answer of a reconcile that stores a request whose work is over in the given phase.
unfoldable pub EndsAs :
    {S C : Type 0}
    → Run S
    → TroubleshootRequest C
    → String
    → Option (TroubleshootRequest C) × Outcome
    → Type 0
EndsAs run tr phase (some last, done) =
    (last.status.phase ≡ phase)
    × ((last.status.started_at ≡ some run.started)
        × ((last.status.completed_at ≡ some run.finished)
            × ((last.status.observed_generation ≡ tr.generation) × (last.spec ≡ tr.spec))))
EndsAs run tr phase (some last, failure) = ⊥
EndsAs run tr phase (some last, panicked) = ⊥
EndsAs run tr phase (some last, requeue_after t) = ⊥
EndsAs run tr phase (none, outcome) = ⊥

-- What a request keeps while logs and events are collected.
record Keeps {C : Type 0} (from to : TroubleshootRequest C) : Type 0 where
  started : to.status.started_at ≡ from.status.started_at
  generation : to.status.observed_generation ≡ from.status.observed_generation
  spec : to.spec ≡ from.spec

module _ {S C : Type 0} (set_status_condition : C → Condition → C) where
  collect_logs_step-Keeps :
      (run : Run S) (tr : TroubleshootRequest C)
      → Keeps tr ((collect_logs_step set_status_condition run tr).0)
  unfolding collect_logs_step set_condition
  collect_logs_step-Keeps run tr = elim (Bool-cases (asks_for "logs" tr.spec.actions)) [
    | inl asked ↦ elim (Option-cases run.logs) [
      | inl lost ↦
          rw (asked, lost, collect_logs_step)
            (record { started = refl; generation = refl; spec = refl })
      | inr (name, got) ↦
          rw (asked, got, collect_logs_step)
            (record { started = refl; generation = refl; spec = refl })
    ]
    | inr spared ↦
        rw (spared, collect_logs_step) (record { started = refl; generation = refl; spec = refl })
  ]

  collect_events_step-Keeps :
      (run : Run S) (tr : TroubleshootRequest C)
      → Keeps tr ((collect_events_step set_status_condition run tr).0)
  unfolding collect_events_step set_condition
  collect_events_step-Keeps run tr = elim (Bool-cases (asks_for "events" tr.spec.actions)) [
    | inl asked ↦ elim (Option-cases run.events) [
      | inl lost ↦
          rw (asked, lost, collect_events_step)
            (record { started = refl; generation = refl; spec = refl })
      | inr (name, got) ↦
          rw (asked, got, collect_events_step)
            (record { started = refl; generation = refl; spec = refl })
    ]
    | inr spared ↦
        rw (spared, collect_events_step) (record { started = refl; generation = refl; spec = refl })
  ]

  -- The request that a reconcile stores before it looks for the pods.
  abbrev pub started : Run S → TroubleshootRequest C → TroubleshootRequest C
  started run tr = record tr {
    status = record (tr.status) {
      observed_generation = tr.generation;
      phase = phase_running;
      started_at = some run.started;
    };
  }

  finish-EndsAs :
      (run : Run S) (tr : TroubleshootRequest C) (pods : List Pod)
      → run.patched ≡ true
      → EndsAs run tr phase_completed (finish set_status_condition run (started run tr) pods)
  unfolding finish set_condition EndsAs
  finish-EndsAs run tr pods patched =
      let found =
        set_condition set_status_condition (started run tr) "TargetFound" true "Found"
          (concat ("Found " ∷ show (length pods) ∷ " pod(s)" ∷ [])) in
      let logged = collect_logs_step-Keeps run found in
      let collected =
        collect_events_step-Keeps run ((collect_logs_step set_status_condition run found).0) in
      rw patched (
        refl,
        (
          collected.started ∙ logged.started,
          (refl, (collected.generation ∙ logged.generation, collected.spec ∙ logged.spec)),
        ),
      )

  set_failed-EndsAs :
      (run : Run S) (tr : TroubleshootRequest C) (message : String)
      → run.patched ≡ true
      → EndsAs run tr phase_failed
          (set_failed set_status_condition run (started run tr) (started run tr) message)
  unfolding set_failed set_condition EndsAs
  set_failed-EndsAs run tr message patched = rw patched (refl, (refl, (refl, (refl, refl))))

  execute-EndsAs :
      (run : Run S) (stored tr : TroubleshootRequest C)
      → run.updated ≡ true
      → run.patched ≡ true
      → EndsAs run tr
          (if has_pods (find_target_pods run tr.spec) then phase_completed else phase_failed)
          (execute set_status_condition run stored
            (record tr { status = record (tr.status) { observed_generation = tr.generation } }))
  unfolding execute has_pods EndsAs
  execute-EndsAs run stored tr updated patched = elim (Found-cases (find_target_pods run tr.spec)) [
    | inl (error, lost) ↦
        rw (updated, lost, execute, has_pods)
          (set_failed-EndsAs run tr (concat ("Failed to find target: " ∷ error ∷ [])) patched)
    | inr (inl none_there) ↦
        rw (updated, none_there, execute, has_pods)
          (set_failed-EndsAs run tr "No pods found for target workload" patched)
    | inr (inr (p, ps, there)) ↦
        rw (updated, there, execute, has_pods) (finish-EndsAs run tr (p ∷ ps) patched)
  ]

  -- A reconcile of a request that is neither over nor under way, when the API server answers its
  -- calls, stores the request as over: completed where the target has pods, failed where it has
  -- none or is not found; the times are the run's, the observed generation is the request's, and
  -- the specification is kept.
  pub reconcile-EndsAs :
      (run : Run S) (tr : TroubleshootRequest C)
      → is_over tr ≡ false
      → is_under_way tr ≡ false
      → run.fetched ≡ true
      → run.updated ≡ true
      → run.patched ≡ true
      → EndsAs run tr
          (if has_pods (find_target_pods run tr.spec) then phase_completed else phase_failed)
          (reconcile set_status_condition run (some tr))
  unfolding is_over is_under_way reconcile EndsAs has_pods
  reconcile-EndsAs run tr unfinished idle fetched updated patched =
      rw (fetched, unfinished, idle, reconcile) (execute-EndsAs run tr tr updated patched)

  -- Reconciles of one request, in their order.
  unfoldable pub reconcile_all :
      List (Run S) → Option (TroubleshootRequest C) → Option (TroubleshootRequest C)
  unfolding reconcile
  reconcile_all [] tr = tr
  reconcile_all (run ∷ runs) tr = reconcile_all runs (reconcile set_status_condition run tr).0

  under_way-stays :
      (runs : List (Run S)) (tr : TroubleshootRequest C)
      → is_over tr ≡ false
      → is_under_way tr ≡ true
      → reconcile_all runs (some tr) ≡ some tr
  unfolding reconcile_all reconcile is_over is_under_way
  under_way-stays [] tr unfinished busy = refl
  under_way-stays (run ∷ runs) tr unfinished busy = elim (Bool-cases run.fetched) [
    | inl fetched ↦
        rw (fetched, unfinished, busy, reconcile_all) (under_way-stays runs tr unfinished busy)
    | inr lost ↦ rw (lost, reconcile_all) (under_way-stays runs tr unfinished busy)
  ]

  execute-lost :
      (run : Run S) (stored tr : TroubleshootRequest C)
      → run.updated ≡ true
      → run.patched ≡ false
      → execute set_status_condition run stored
          (record tr { status = record (tr.status) { observed_generation = tr.generation } })
        ≡ (some (started run tr), failure)
  unfolding execute set_failed finish
  execute-lost run stored tr updated unpatched = elim (Found-cases (find_target_pods run tr.spec)) [
    | inl (error, lost) ↦ rw (updated, lost, unpatched, execute) refl
    | inr (inl none_there) ↦ rw (updated, none_there, unpatched, execute) refl
    | inr (inr (p, ps, there)) ↦ rw (updated, there, unpatched, execute) refl
  ]

  reconcile-lost :
      (run : Run S) (tr : TroubleshootRequest C)
      → is_over tr ≡ false
      → is_under_way tr ≡ false
      → run.fetched ≡ true
      → run.updated ≡ true
      → run.patched ≡ false
      → reconcile set_status_condition run (some tr) ≡ (some (started run tr), failure)
  unfolding is_over is_under_way reconcile
  reconcile-lost run tr unfinished idle fetched updated unpatched =
      rw (fetched, unfinished, idle, reconcile) (execute-lost run tr tr updated unpatched)

  -- When the patch at the end of the work fails, after the update to Running at its start was
  -- stored, the reconcile returns an error, and the stored request stays Running whatever
  -- reconciles follow, in any number: the guard for a request under way skips the work.
  pub lost_patch-stays :
      (run : Run S) (later : List (Run S)) (tr : TroubleshootRequest C)
      → is_over tr ≡ false
      → is_under_way tr ≡ false
      → run.fetched ≡ true
      → run.updated ≡ true
      → run.patched ≡ false
      → ((reconcile set_status_condition run (some tr)).1 ≡ failure)
        × (reconcile_all later (reconcile set_status_condition run (some tr)).0
            ≡ some (started run tr))
  unfolding is_over is_under_way reconcile
  lost_patch-stays run later tr unfinished idle fetched updated unpatched =
      let lost = reconcile-lost run tr unfinished idle fetched updated unpatched in
      rw lost (refl, under_way-stays later (started run tr) refl refl)
