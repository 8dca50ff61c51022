-- ===== src/Controller/Plugins/InStep.antt =====
-- internal/controller/checkplugin_controller.go over the life of one object: the registry holds a
-- checker for it while it is there.
use kube_assist_operator.Prelude.{
  ◌≡◌, ◌⊎◌, sym, inl, inr, arith, refl, Bool, true, false, Bool-cases, Option, none, some, List, [],
  ◌∷◌, String, string_eq,
}
use kube_assist_operator.Checker.Registry.{Registry}
use kube_assist_operator.Checker.Plugin.{CelValue, TargetGvr, Item}
use kube_assist_operator.Controller.Troubleshoot.{failure}
use kube_assist_operator.Controller.Plugins.{
  check_plugin_finalizer, CheckPlugin, PluginRun, settle, delete_plugin, register_plugin,
  reconcile_plugin,
}
use kube_assist_operator.Controller.Plugins.Life.{
  Event, created, edited, delete_requested, reconciled, InStep, step, run,
}
use kube_assist_operator.Controller.Plugins.Branches.{register_plugin-InStep, delete_plugin-InStep}

module _ {F A P O : Type 0} (has : F → String → Bool) (add remove : F → String → F)
    (is_free : F → Bool) (compile : String → String ⊎ A) (program : A → String ⊎ P)
    (run_program : P → O → String ⊎ CelValue) (quote : String → String)
    (list_items : TargetGvr → String → String ⊎ List (Item O))
    (context : Option (List String)) where
  module _ (has_add : (f : F) (s : String) → has (add f s) s ≡ true)
      (free : (f : F) (s : String) → is_free f ≡ true → has f s ≡ false) where
    reconcile_some-InStep :
        (run : PluginRun) (r : Registry) (cp : CheckPlugin F)
        → InStep has cp.name r (some cp)
        → (let after =
              reconcile_plugin has add remove is_free compile program run_program quote list_items
                context run r
                (some cp) in
            InStep has cp.name after.0 after.1.0)
    unfolding InStep reconcile_plugin
    reconcile_some-InStep run r cp before = elim (Bool-cases run.fetched) [
      | inr unread ↦
          let e : reconcile_plugin has add remove is_free compile program run_program quote
                list_items context run r (some cp)
              ≡ (r, (some cp, failure)) =
            rw (unread, reconcile_plugin) refl in
          rw e (before)
      | inl fetched ↦ elim (Bool-cases cp.deletion) [
        | inl deleted ↦
            let e : reconcile_plugin has add remove is_free compile program run_program quote
                  list_items context run r (some cp)
                ≡ delete_plugin has add remove is_free compile program run_program quote list_items
                    context run r cp =
              rw (fetched, deleted, reconcile_plugin) refl in
            rw e (
              delete_plugin-InStep has add remove is_free compile program run_program quote
                list_items context run r cp deleted before)
        | inr stays ↦ elim (Bool-cases (has cp.finalizers check_plugin_finalizer)) [
          | inl held ↦
              let e : reconcile_plugin has add remove is_free compile program run_program quote
                    list_items context run r (some cp)
                  ≡ register_plugin has add remove is_free compile program run_program quote
                      list_items context run r cp =
                rw (fetched, stays, held, reconcile_plugin) refl in
              rw e (
                register_plugin-InStep has add remove is_free compile program run_program quote
                  list_items context run r cp held before)
          | inr absent ↦ elim (Bool-cases run.finalizer_patched) [
            | inr lost ↦
                let e : reconcile_plugin has add remove is_free compile program run_program quote
                      list_items context run r (some cp)
                    ≡ (r, (some cp, failure)) =
                  rw (fetched, stays, absent, lost, reconcile_plugin) refl in
                rw e (before)
            | inl patched ↦
                let held = has_add cp.finalizers check_plugin_finalizer in
                let e : reconcile_plugin has add remove is_free compile program run_program quote
                      list_items context run r (some cp)
                    ≡ register_plugin has add remove is_free compile program run_program quote
                        list_items context run r
                        (record cp { finalizers = add cp.finalizers check_plugin_finalizer }) =
                  rw (fetched, stays, absent, patched, reconcile_plugin) refl in
                rw e (
                  register_plugin-InStep has add remove is_free compile program run_program quote
                    list_items context run r
                    (record cp { finalizers = add cp.finalizers check_plugin_finalizer }) held
                    (refl, (λ _. held, before.1.1)))
          ]
        ]
      ]
    ]

    reconcile_plugin-InStep :
        (run : PluginRun) (name : String) (r : Registry) (stored : Option (CheckPlugin F))
        → InStep has name r stored
        → (let after =
              reconcile_plugin has add remove is_free compile program run_program quote list_items
                context run r stored in
            InStep has name after.0 after.1.0)
    unfolding InStep reconcile_plugin
    reconcile_plugin-InStep run name r none before = before
    reconcile_plugin-InStep run name r (some cp) (named, before) =
        rw (sym named) (reconcile_some-InStep run r cp (refl, rw named before))

    step-InStep :
        (fresh : F) (name : String) (event : Event) (r : Registry) (stored : Option (CheckPlugin F))
        → has fresh check_plugin_finalizer ≡ false
        → InStep has name r stored
        → (let after =
              step has add remove is_free compile program run_program quote list_items context fresh
                name
                (r, stored)
                event in
            InStep has name after.0 after.1)
    unfolding InStep step settle
    step-InStep fresh name (created target rules) r none clean out =
        (refl, (λ h. absurd (ground (arith, h, out)), λ h. absurd (ground (arith, h))))
    step-InStep fresh name (created target rules) r (some cp) clean before = before
    step-InStep fresh name (edited target rules) r none clean before = before
    step-InStep fresh name (edited target rules) r (some cp) clean before = before
    step-InStep fresh name delete_requested r none clean before = before
    step-InStep fresh name delete_requested r (some cp) clean (named, (holds, ready)) =
        elim (Bool-cases (is_free cp.finalizers)) [
          | inl last ↦
              rw (last, settle, InStep) ground
                (arith, holds, free cp.finalizers check_plugin_finalizer last)
          | inr more ↦ rw (more, settle, InStep) (named, (holds, λ _ h. absurd (ground (arith, h))))
        ]
    step-InStep fresh name (reconciled run) r stored clean before =
        reconcile_plugin-InStep run name r stored before

    -- Whatever happens to a plugin and in whatever order, failed reads and patches included, its name
    -- stays in step: a checker that is registered for it has a stored object with the finalizer, and a
    -- stored object that is ready and not being deleted has a checker registered; when it starts so,
    -- only one object has the name, and no finalizer comes with it.
    pub run-InStep :
        (fresh : F) (name : String) (events : List Event) (r : Registry)
        (stored : Option (CheckPlugin F))
        → has fresh check_plugin_finalizer ≡ false
        → InStep has name r stored
        → (let after =
              run has add remove is_free compile program run_program quote list_items context fresh
                name
                (r, stored)
                events in
            InStep has name after.0 after.1)
    unfolding run
    run-InStep fresh name [] r stored clean before = before
    run-InStep fresh name (event ∷ events) r stored clean before =
        let next =
          step has add remove is_free compile program run_program quote list_items context fresh
            name (r, stored) event in
        run-InStep fresh name events next.0 next.1 clean
          (step-InStep fresh name event r stored clean before)
