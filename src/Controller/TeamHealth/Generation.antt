-- ===== src/Controller/TeamHealth/Generation.antt =====
-- internal/controller/teamhealthrequest_controller.go: the observed generation that is stored.
use kube_assist_operator.Prelude.{
  ℕ, ◌≡◌, inl, inr, refl, ◌∙◌, Bool-cases, Option-cases, Sum-cases, ◌&&◌, ◌||◌, Option, none, some,
  List, [], ◌∷◌, String, string_eq, ◌==◌, eqb_iff, if◌then◌else◌,
}
use kube_assist_operator.Scope.{resolve_namespaces}
use kube_assist_operator.Api.TeamHealth.{TeamHealthRequest, Url}
use kube_assist_operator.Controller.Troubleshoot.{
  phase_running, phase_completed, phase_failed, Condition, is_set, time_left,
}
use kube_assist_operator.Controller.Notify.{Sent}
use kube_assist_operator.Controller.TeamHealth.{
  TeamRun, aggregate_results, no_results, merge_patch, get_checker_names, build_checker_config,
}
use kube_assist_operator.Controller.TeamHealth.Reconcile.{
  Reconciled, limit_namespaces, handle_team_ttl, set_team_condition, set_team_failed, check_team,
  execute_team, reconcile_team, patch_team,
}

-- The stored object, if there is one, has the observed generation.
abbrev Observed : {S C : Type 0} → ℕ → Option (TeamHealthRequest S C) → Type 0
Observed n none = Unit
Observed n (some hr) = hr.status.observed_generation ≡ n

Observed-trans :
    {S C : Type 0} (m n : ℕ) (hr : Option (TeamHealthRequest S C))
    → m ≡ n
    → Observed m hr
    → Observed n hr
Observed-trans m n none e h = tt
Observed-trans m n (some hr) e h = h ∙ e

merge_patch-Observed :
    {S C : Type 0} (base changed stored : TeamHealthRequest S C)
    → changed.status.observed_generation ≡ base.status.observed_generation
    → Observed stored.status.observed_generation (some (merge_patch base changed stored))
unfolding merge_patch
merge_patch-Observed base changed stored same = rw ((eqb_iff _ _).1 same) refl

module _ {S C : Type 0} (set_status_condition : C → Condition → C) where
  patch_team-Observed :
      (run : TeamRun S) (original hr : TeamHealthRequest S C) (sent : List Sent)
      → hr.status.observed_generation ≡ original.status.observed_generation
      → Observed original.status.observed_generation
          (Reconciled.stored (patch_team set_status_condition run original hr sent))
  unfolding merge_patch
  patch_team-Observed run original hr sent same = elim (Bool-cases run.patched) [
    | inl patched ↦ rw patched (merge_patch-Observed original hr original same)
    | inr lost ↦ rw lost refl
  ]

  handle_team_ttl-Observed :
      (run : TeamRun S) (hr : TeamHealthRequest S C)
      → Observed hr.status.observed_generation (Reconciled.stored (handle_team_ttl run hr))
  unfolding handle_team_ttl
  handle_team_ttl-Observed run hr = elim (Option-cases hr.spec.ttl_seconds_after_finished) [
    | inl unset ↦ rw (unset, handle_team_ttl) refl
    | inr (ttl, set) ↦ elim (Option-cases hr.status.completed_at) [
      | inl never ↦ rw (set, never, handle_team_ttl) refl
      | inr (completed, at) ↦ elim (Option-cases (time_left completed ttl run.finished)) [
        | inr (left, waits) ↦ rw (set, at, waits, handle_team_ttl) refl
        | inl over ↦ elim (Bool-cases run.deleted) [
          | inl gone ↦ rw (set, at, over, gone, handle_team_ttl) tt
          | inr kept ↦ rw (set, at, over, kept, handle_team_ttl) refl
        ]
      ]
    ]
  ]

  module _ (parse : String → Option Url) (trim_space : String → String) (configured : String) where
    check_team-Observed :
        (run : TeamRun S) (original : TeamHealthRequest S C) (found : List String)
        → Observed original.status.observed_generation (
            Reconciled.stored
              (check_team set_status_condition parse trim_space configured run original found))
    unfolding check_team set_team_condition
    check_team-Observed run original found =
        let results =
          run.run_checks (limit_namespaces found)
            (get_checker_names run.registered original.spec.checks)
            (build_checker_config original.spec.restart_threshold) in
        elim (Option-cases (aggregate_results results no_results)) [
          | inl panics ↦ rw (panics, check_team) refl
          | inr (agg, counted) ↦
              rw (counted, check_team) (patch_team-Observed run original _ _ refl)
        ]

    execute_team-Observed :
        (run : TeamRun S) (original : TeamHealthRequest S C)
        → Observed original.status.observed_generation (
            Reconciled.stored
              (execute_team set_status_condition parse trim_space configured run original))
    unfolding execute_team set_team_failed set_team_condition
    execute_team-Observed run original =
        elim (Sum-cases (
          resolve_namespaces run.exists_namespace run.list_namespaces original.namespace
            original.spec.scope)) [
              | inl (err, bad) ↦ rw (bad, execute_team) (patch_team-Observed run original _ _ refl)
              | inr ([], there) ↦
                  rw (there, execute_team) (patch_team-Observed run original _ _ refl)
              | inr (n ∷ ns, there) ↦
                  rw (there, execute_team) (check_team-Observed run original (n ∷ ns))
            ]

    reconcile_team-Observed :
        (run : TeamRun S) (hr : TeamHealthRequest S C)
        → Observed hr.status.observed_generation (
            Reconciled.stored
              (reconcile_team set_status_condition parse trim_space configured run (some hr)))
    unfolding reconcile_team
    reconcile_team-Observed run hr =
        let phase = hr.status.phase in
        elim (Bool-cases run.fetched) [
          | inr lost ↦ rw (lost, reconcile_team) refl
          | inl fetched ↦ elim (Bool-cases (phase == phase_completed || phase == phase_failed)) [
            | inl over ↦ rw (fetched, over, reconcile_team) (handle_team_ttl-Observed run hr)
            | inr unfinished ↦
                elim (Bool-cases (phase == phase_running && is_set hr.status.started_at)) [
                  | inl busy ↦ rw (fetched, unfinished, busy, reconcile_team) refl
                  | inr idle ↦ elim (Bool-cases run.running_patched) [
                    | inr refused ↦ rw (fetched, unfinished, idle, refused, reconcile_team) refl
                    | inl patched ↦
                        let noted = record hr {
                          status = record (hr.status) { observed_generation = hr.generation };
                        } in
                        let running = record noted {
                          status = record (noted.status) {
                            phase = phase_running;
                            started_at =
                                if is_set hr.status.started_at
                                then hr.status.started_at
                                else some run.started;
                          };
                        } in
                        let kept = merge_patch-Observed noted running hr refl in
                        rw (fetched, unfinished, idle, patched, reconcile_team)
                          (Observed-trans _ _ _ kept
                            (execute_team-Observed run (merge_patch noted running hr)))
                  ]
                ]
          ]
        ]

    -- Reconciles of one request, in their order.
    unfoldable pub reconcile_team_all :
        List (TeamRun S) → Option (TeamHealthRequest S C) → Option (TeamHealthRequest S C)
    unfolding reconcile_team
    reconcile_team_all [] hr = hr
    reconcile_team_all (run ∷ runs) hr =
        reconcile_team_all runs (
          Reconciled.stored
            (reconcile_team set_status_condition parse trim_space configured run hr))

    all-Observed :
        (n : ℕ) (runs : List (TeamRun S)) (hr : Option (TeamHealthRequest S C))
        → Observed n hr
        → Observed n (reconcile_team_all runs hr)
    unfolding reconcile_team_all reconcile_team
    all-Observed n [] hr h = h
    all-Observed n (run ∷ runs) none h = all-Observed n runs none tt
    all-Observed n (run ∷ runs) (some hr) h =
        all-Observed n runs _ (Observed-trans _ _ _ h (reconcile_team-Observed run hr))

    -- No reconcile, whatever it meets, changes the observed generation that is stored: as long as the
    -- request is there, after any number of reconciles, it is the one that was stored at first.
    pub reconcile_team_all-observed_generation :
        (runs : List (TeamRun S)) (hr last : TeamHealthRequest S C)
        → reconcile_team_all runs (some hr) ≡ some last
        → last.status.observed_generation ≡ hr.status.observed_generation
    reconcile_team_all-observed_generation runs hr last e =
        let kept = all-Observed hr.status.observed_generation runs (some hr) refl in rw e at kept
