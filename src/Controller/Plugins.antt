-- ===== src/Controller/Plugins.antt =====
-- internal/controller/checkplugin_controller.go. The state is the checker registry and the object
-- that the API server stores under the request's name. Finalizers are of the library's type `F`:
-- `has`, `add` and `remove` are `ContainsFinalizer`, `AddFinalizer` and `RemoveFinalizer`, and
-- `is_free` says that there is none. Nobody writes the object while it is reconciled; events are
-- not modelled.
mod Life
mod Branches
pub mod InStep
mod Tests
use kube_assist_operator.Prelude.{
  ℕ, ◌⊎◌, inl, inr, Bool, true, false, not, ◌&&◌, Option, none, some, List, [], ◌∷◌, String,
  if◌then◌else◌,
}
use kube_assist_operator.Prelude.Texts.{concat}
use kube_assist_operator.Api.CheckPluginWebhook.{CheckRule}
use kube_assist_operator.Checker.Registry.{
  Checker, returned, errored, Registry, unregister, replace,
}
use kube_assist_operator.Checker.Plugin.{
  CelValue, TargetGvr, PluginChecker, Item, new_plugin_checker, check_context,
}
use kube_assist_operator.Controller.Troubleshoot.{Outcome, done, failure}

abbrev pub check_plugin_finalizer : String
check_plugin_finalizer = "assist.cluster.local/checkplugin-finalizer"

-- `deletion` says that the deletion timestamp is set.
pub record CheckPlugin (F : Type 0) : Type 0 where
  pub name : String
  pub finalizers : F
  pub deletion : Bool
  pub target : TargetGvr
  pub rules : List CheckRule
  pub ready : Bool
  pub error : String
  pub last_updated : Option ℕ

-- What one reconcile meets. `env_error` is the error of `cel.NewEnv`.
pub record PluginRun : Type 0 where
  pub fetched : Bool
  pub env_error : Option String
  pub finalizer_patched : Bool
  pub status_patched : Bool
  pub now : ℕ

abbrev pub registry_key : String → String
registry_key name = concat ("plugin:" ∷ name ∷ [])

unfoldable pub update_status :
    {F : Type 0} → PluginRun → CheckPlugin F → Bool → String → Option (CheckPlugin F) × Outcome
update_status run cp ready err =
    if run.status_patched
    then (some (record cp { ready = ready; error = err; last_updated = some run.now }), done)
    else (some cp, failure)

module _ {F A P O : Type 0} (has : F → String → Bool) (add remove : F → String → F)
    (is_free : F → Bool) (compile : String → String ⊎ A) (program : A → String ⊎ P)
    (run_program : P → O → String ⊎ CelValue) (quote : String → String)
    (list_items : TargetGvr → String → String ⊎ List (Item O))
    (context : Option (List String)) where
  -- A plugin checker behind the interface of the registry.
  unfoldable pub as_checker : PluginChecker P → Checker
  unfolding check_context concat
  as_checker pc = record {
    name = concat ("plugin:" ∷ pc.name ∷ []);
    supports = true;
    check = elim (check_context run_program quote (list_items pc.target) pc context) [
      | inl err ↦ errored err
      | inr result ↦ returned (some result)
    ];
  }

  -- What the API server keeps of an object that it is to delete.
  unfoldable pub settle : CheckPlugin F → Option (CheckPlugin F)
  settle cp = if cp.deletion && is_free cp.finalizers then none else some cp

  unfoldable pub delete_plugin :
      PluginRun → Registry → CheckPlugin F → Registry × (Option (CheckPlugin F) × Outcome)
  unfolding unregister settle concat
  delete_plugin run r cp =
      if has cp.finalizers check_plugin_finalizer
      then (
        (unregister r (registry_key cp.name)).0,
        if run.finalizer_patched
            then (
              settle (record cp { finalizers = remove cp.finalizers check_plugin_finalizer }),
              done,
            )
            else (some cp, failure),
      )
      else (r, (some cp, done))

  unfoldable pub register_plugin :
      PluginRun → Registry → CheckPlugin F → Registry × (Option (CheckPlugin F) × Outcome)
  unfolding new_plugin_checker replace as_checker update_status
  register_plugin run r cp =
      elim (new_plugin_checker compile program run.env_error quote cp.name cp.target cp.rules) [
        | inl err ↦ (r, update_status run cp false err)
        | inr pc ↦ (replace r (as_checker pc), update_status run cp true "")
      ]

  unfoldable pub reconcile_plugin :
      PluginRun → Registry → Option (CheckPlugin F) → Registry × (Option (CheckPlugin F) × Outcome)
  unfolding delete_plugin register_plugin
  reconcile_plugin run r none = (r, (none, if run.fetched then done else failure))
  reconcile_plugin run r (some cp) =
      if not run.fetched
      then (r, (some cp, failure))
      else (if cp.deletion
          then delete_plugin run r cp
          else (if has cp.finalizers check_plugin_finalizer
              then register_plugin run r cp
              else (if run.finalizer_patched
                  then register_plugin run r
                      (record cp { finalizers = add cp.finalizers check_plugin_finalizer })
                  else (r, (some cp, failure)))))
