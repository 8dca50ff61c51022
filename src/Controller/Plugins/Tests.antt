-- ===== src/Controller/Plugins/Tests.antt =====
-- One finalizer at most, so that `F` is its name or none; an expression is its own program.
use kube_assist_operator.Prelude.{
  ◌≡◌, ◌⊎◌, inl, inr, arith, refl, Bool, true, false, Option, none, some, List, [], ◌∷◌, String,
  string_eq, ◌==◌, if◌then◌else◌, take,
}
use kube_assist_operator.Api.CheckPluginWebhook.{CheckRule}
use kube_assist_operator.Checker.Registry.{Registry, new_registry}
use kube_assist_operator.Checker.Plugin.{CelValue, bool_value, TargetGvr, Item}
use kube_assist_operator.Controller.Plugins.{CheckPlugin, PluginRun}
use kube_assist_operator.Controller.Plugins.Life.{
  is_registered, Event, created, edited, delete_requested, reconciled, InStep, run,
}
use kube_assist_operator.Controller.Plugins.InStep.{run-InStep}

abbrev has : Option String → String → Bool
has none s = false
has (some f) s = f == s

abbrev add : Option String → String → Option String
add f s = some s

abbrev remove : Option String → String → Option String
remove f s = none

abbrev is_free : Option String → Bool
is_free none = true
is_free (some f) = false

add_lem : (f : Option String) (s : String) → has (add f s) s ≡ true
add_lem f s = (string_eq.same_iff s s).1 refl

free_lem : (f : Option String) (s : String) → is_free f ≡ true → has f s ≡ false
free_lem none s h = refl
free_lem (some f) s h = absurd (ground (arith, h))

abbrev compile : String → String ⊎ String
compile s = if s == "(" then inl "syntax error" else inr s

abbrev run_program : String → String → String ⊎ CelValue
run_program p object = inr (bool_value (p == object))

abbrev list_items : TargetGvr → String → String ⊎ List (Item String)
list_items target ns = inr []

abbrev target : TargetGvr
target = record { group = "apps"; version = "v1"; resource = "deployments"; kind = "Deployment" }

abbrev rule : String → CheckRule
rule condition = record {
  name = "down";
  condition = condition;
  severity = "Critical";
  message = "it is down";
}

abbrev all_well : PluginRun
all_well = record {
  fetched = true;
  env_error = none;
  finalizer_patched = true;
  status_patched = true;
  now = 5;
}

-- The second spec does not compile.
abbrev life : List Event
life =
    created target (rule "broken" ∷ [])
    ∷ reconciled all_well
    ∷ edited target (rule "(" ∷ [])
    ∷ reconciled all_well
    ∷ []

abbrev lived : List Event → Registry × Option (CheckPlugin (Option String))
lived =
    run has add remove is_free compile inr run_program (λ s. s) list_items (some []) none "deploy"
      (new_registry, none)

abbrev is_ready : Option (CheckPlugin (Option String)) → Bool
is_ready none = false
is_ready (some cp) = cp.ready

-- The checker of the first spec stays registered.
outdated : (is_registered (lived life).0 "deploy" ≡ true) × (is_ready (lived life).1 ≡ false)
unfolding run is_registered
outdated = (refl, refl)

abbrev short_life : List Event
short_life =
    created target (rule "broken" ∷ [])
    ∷ reconciled all_well
    ∷ delete_requested
    ∷ reconciled all_well
    ∷ []

-- An object of the same name in another namespace, whose deletion unregisters the checker of the
-- first.
namesake :
    is_registered
      (run has add remove is_free compile inr run_program
        (λ s. s)
        list_items
        (some [])
        none
        "deploy"
        ((lived (take 2 life)).0, none)
        short_life).0
      "deploy"
    ≡ false
unfolding run is_registered
namesake = refl

run-InStep_example : InStep has "deploy" (lived life).0 (lived life).1
unfolding InStep is_registered
run-InStep_example =
    run-InStep has add remove is_free compile inr run_program (λ s. s) list_items (some []) add_lem
      free_lem none "deploy" life new_registry none refl refl
