-- ===== src/Controller/Plugins/Life.antt =====
-- internal/controller/checkplugin_controller.go over the life of one object. Whoever creates or edits
-- the object leaves the finalizer alone, and its name is the only one of its kind.
use kube_assist_operator.Prelude.{
  ◌≡◌, ◌⊎◌, Bool, true, false, Option, none, some, List, [], ◌∷◌, String, string_eq, lookup,
}
use kube_assist_operator.Prelude.Texts.{concat}
use kube_assist_operator.Api.CheckPluginWebhook.{CheckRule}
use kube_assist_operator.Checker.Registry.{Registry}
use kube_assist_operator.Checker.Plugin.{CelValue, TargetGvr, Item}
use kube_assist_operator.Controller.Plugins.{
  check_plugin_finalizer, CheckPlugin, PluginRun, registry_key, settle, reconcile_plugin,
}

unfoldable pub is_registered : Registry → String → Bool
unfolding lookup concat
is_registered r name = elim (lookup (registry_key name) r) [ none ↦ false | some c ↦ true ]

-- What happens to the object of a name, in the order in which it happens.
pub data Event : Type 0 where
  created edited : TargetGvr → List CheckRule → Event
  delete_requested : Event
  reconciled : PluginRun → Event

module _ {F : Type 0} (has : F → String → Bool) where
  -- A registered plugin is an object with the finalizer, so its deletion waits for the reconciler; and
  -- a ready one that is not being deleted is registered.
  unfoldable pub InStep : String → Registry → Option (CheckPlugin F) → Type 0
  InStep name r none = is_registered r name ≡ false
  InStep name r (some cp) =
      (cp.name ≡ name)
      × ((is_registered r name ≡ true → has cp.finalizers check_plugin_finalizer ≡ true)
          × (cp.ready ≡ true → cp.deletion ≡ false → is_registered r name ≡ true))

module _ {F A P O : Type 0} (has : F → String → Bool) (add remove : F → String → F)
    (is_free : F → Bool) (compile : String → String ⊎ A) (program : A → String ⊎ P)
    (run_program : P → O → String ⊎ CelValue) (quote : String → String)
    (list_items : TargetGvr → String → String ⊎ List (Item O))
    (context : Option (List String)) where
  -- One event on the registry and the object of the name; an object is created without finalizers.
  unfoldable pub step :
      F → String → Registry × Option (CheckPlugin F) → Event → Registry × Option (CheckPlugin F)
  unfolding settle reconcile_plugin
  step fresh name (r, none) (created target rules) = (
    r,
    some (record {
      name = name;
      finalizers = fresh;
      deletion = false;
      target = target;
      rules = rules;
      ready = false;
      error = "";
      last_updated = none;
    }),
  )
  step fresh name (r, some cp) (created target rules) = (r, some cp)
  step fresh name (r, none) (edited target rules) = (r, none)
  step fresh name (r, some cp) (edited target rules) =
      (r, some (record cp { target = target; rules = rules }))
  step fresh name (r, none) delete_requested = (r, none)
  step fresh name (r, some cp) delete_requested = (
    r,
    settle has add remove is_free compile program run_program quote list_items context
        (record cp { deletion = true }),
  )
  step fresh name (r, stored) (reconciled run) =
      let (r', (stored', outcome)) =
        reconcile_plugin has add remove is_free compile program run_program quote list_items context
          run r stored in
      (r', stored')

  unfoldable pub run :
      F
      → String
      → Registry × Option (CheckPlugin F)
      → List Event
      → Registry × Option (CheckPlugin F)
  unfolding step
  run fresh name s [] = s
  run fresh name s (event ∷ events) = run fresh name (step fresh name s event) events
