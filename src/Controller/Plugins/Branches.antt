-- ===== src/Controller/Plugins/Branches.antt =====
-- internal/controller/checkplugin_controller.go: the branches of `Reconcile` keep a name in step.
use kube_assist_operator.Prelude.{
  ◌≡◌, ◌⊎◌, ap, inl, inr, arith, refl, Bool, true, false, Bool-cases, Option-cases, Sum-cases,
  Option, none, some, List, String, string_eq, lookup, lookup-insert, lookup-delete,
}
use kube_assist_operator.Api.CheckPluginWebhook.{CheckRule}
use kube_assist_operator.Checker.Registry.{Checker, Registry, unregister, replace}
use kube_assist_operator.Checker.Plugin.{
  CelValue, TargetGvr, PluginChecker, Item, new_plugin_checker,
}
use kube_assist_operator.Controller.Troubleshoot.{done, failure}
use kube_assist_operator.Controller.Plugins.{
  check_plugin_finalizer, CheckPlugin, PluginRun, registry_key, update_status, as_checker, settle,
  delete_plugin, register_plugin,
}
use kube_assist_operator.Controller.Plugins.Life.{is_registered, InStep, run}

replace-registered :
    (name : String) (r : Registry) (c : Checker)
    → c.name ≡ registry_key name
    → is_registered (replace r c) name ≡ true
unfolding is_registered replace
replace-registered name r c named = ground (
  arith,
  lookup-insert c.name (registry_key name) c r,
  named,
  string_eq.same_iff c.name (registry_key name),
)

unregister-registered :
    (name : String) (r : Registry) → is_registered (unregister r (registry_key name)).0 name ≡ false
unfolding is_registered unregister
unregister-registered name r = elim (Option-cases (lookup (registry_key name) r)) [
  | inl missing ↦ ground (arith, missing)
  | inr (c, there) ↦ ground (
    arith,
    there,
    lookup-delete (registry_key name) (registry_key name) r,
    string_eq.same_iff (registry_key name) (registry_key name),
  )
]

module _ {F A P O : Type 0} (has : F → String → Bool) (add remove : F → String → F)
    (is_free : F → Bool) (compile : String → String ⊎ A) (program : A → String ⊎ P)
    (run_program : P → O → String ⊎ CelValue) (quote : String → String)
    (list_items : TargetGvr → String → String ⊎ List (Item O))
    (context : Option (List String)) where
  new_plugin_checker-name :
      (env_error : Option String) (name : String) (target : TargetGvr) (rules : List CheckRule)
      (pc : PluginChecker P)
      → new_plugin_checker compile program env_error quote name target rules ≡ inr pc
      → pc.name ≡ name
  unfolding new_plugin_checker
  new_plugin_checker-name env_error name target rules pc made = ground (arith, made)

  update_status-InStep :
      (run : PluginRun) (r : Registry) (cp : CheckPlugin F) (ready : Bool) (err : String)
      → InStep has cp.name r (some cp)
      → (is_registered r cp.name ≡ true → has cp.finalizers check_plugin_finalizer ≡ true)
      → (ready ≡ true → cp.deletion ≡ false → is_registered r cp.name ≡ true)
      → InStep has cp.name r (update_status run cp ready err).0
  unfolding InStep update_status
  update_status-InStep run r cp ready err before held registered =
      elim (Bool-cases run.status_patched) [
        | inl patched ↦ rw (patched, update_status, InStep) (refl, (held, registered))
        | inr lost ↦ rw (lost, update_status, InStep) before
      ]

  register_plugin-bad :
      (run : PluginRun) (r : Registry) (cp : CheckPlugin F) (err : String)
      → new_plugin_checker compile program run.env_error quote cp.name cp.target cp.rules ≡ inl err
      → register_plugin has add remove is_free compile program run_program quote list_items context
          run r cp
        ≡ (r, update_status run cp false err)
  unfolding register_plugin
  register_plugin-bad run r cp err bad = rw (bad, register_plugin) refl

  register_plugin-good :
      (run : PluginRun) (r : Registry) (cp : CheckPlugin F) (pc : PluginChecker P)
      → new_plugin_checker compile program run.env_error quote cp.name cp.target cp.rules ≡ inr pc
      → register_plugin has add remove is_free compile program run_program quote list_items context
          run r cp
        ≡ (
          replace r (
              as_checker has add remove is_free compile program run_program quote list_items context
                pc),
          update_status run cp true "",
        )
  unfolding register_plugin
  register_plugin-good run r cp pc good = rw (good, register_plugin) refl

  pub register_plugin-InStep :
      (run : PluginRun) (r : Registry) (cp : CheckPlugin F)
      → has cp.finalizers check_plugin_finalizer ≡ true
      → InStep has cp.name r (some cp)
      → (let after =
            register_plugin has add remove is_free compile program run_program quote list_items
              context run r cp in
          InStep has cp.name after.0 after.1.0)
  unfolding InStep as_checker
  register_plugin-InStep run r cp held (named, (holds, ready)) =
      elim (Sum-cases
        (new_plugin_checker compile program run.env_error quote cp.name cp.target cp.rules)) [
          | inl (err, bad) ↦ rw (register_plugin-bad run r cp err bad) (
              update_status-InStep run r cp false err (named, (holds, ready)) (λ _. held)
                (λ h. absurd (ground (arith, h))))
          | inr (pc, good) ↦
              let c =
                as_checker has add remove is_free compile program run_program quote list_items
                  context pc in
              let there = replace-registered cp.name r c (
                ap (λ n. registry_key n)
                  (new_plugin_checker-name run.env_error cp.name cp.target cp.rules pc good)) in
              rw (register_plugin-good run r cp pc good) (
                update_status-InStep run (replace r c) cp true "" (refl, (λ _. held, λ _ _. there))
                  (λ _. held) (λ _ _. there))
        ]

  pub delete_plugin-InStep :
      (run : PluginRun) (r : Registry) (cp : CheckPlugin F)
      → cp.deletion ≡ true
      → InStep has cp.name r (some cp)
      → (let after =
            delete_plugin has add remove is_free compile program run_program quote list_items
              context run r cp in
          InStep has cp.name after.0 after.1.0)
  unfolding InStep delete_plugin settle
  delete_plugin-InStep run r cp deleted before =
      let out = unregister-registered cp.name r in
      elim (Bool-cases (has cp.finalizers check_plugin_finalizer)) [
        | inl held ↦ elim (Bool-cases run.finalizer_patched) [
          | inl patched ↦
              elim (Bool-cases (is_free (remove cp.finalizers check_plugin_finalizer))) [
                | inl last ↦
                    let e : delete_plugin has add remove is_free compile program run_program quote
                          list_items context run r cp
                        ≡ ((unregister r (registry_key cp.name)).0, (none, done)) =
                      rw (held, patched, deleted, last, delete_plugin, settle) refl in
                    rw e out
                | inr more ↦
                    let e : delete_plugin has add remove is_free compile program run_program quote
                          list_items context run r cp
                        ≡ (
                          (unregister r (registry_key cp.name)).0,
                          (
                            some (record cp {
                              finalizers = remove cp.finalizers check_plugin_finalizer;
                            }),
                            done,
                          ),
                        ) =
                      rw (held, patched, deleted, more, delete_plugin, settle) refl in
                    rw e (
                      refl,
                      (
                        λ h. absurd (ground (arith, h, out)),
                        λ _ h. absurd (ground (arith, h, deleted)),
                      ),
                    )
              ]
          | inr lost ↦
              let e : delete_plugin has add remove is_free compile program run_program quote
                    list_items context run r cp
                  ≡ ((unregister r (registry_key cp.name)).0, (some cp, failure)) =
                rw (held, lost, delete_plugin) refl in
              rw e (
                refl,
                (λ h. absurd (ground (arith, h, out)), λ _ h. absurd (ground (arith, h, deleted))),
              )
        ]
        | inr absent ↦
            let e : delete_plugin has add remove is_free compile program run_program quote
                  list_items context run r cp
                ≡ (r, (some cp, done)) =
              rw (absent, delete_plugin) refl in
            rw e before
      ]
