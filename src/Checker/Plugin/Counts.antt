-- ===== src/Checker/Plugin/Counts.antt =====
-- internal/checker/plugin/checker.go: what the result of `Check` counts.
use kube_assist_operator.Prelude.{
  ℕ, ◌+◌, ◌≤◌, ◌≡◌, ◌↔◌, ◌⊎◌, inl, inr, arith, refl, Bool, true, false, not, ◌&&◌, ◌||◌, Sum-cases,
  none, List, [], ◌∷◌, String, string_eq, eqb, length, keep,
}
use kube_assist_operator.Causal.Types.{Issue}
use kube_assist_operator.Checker.Plugin.{
  CelValue, bool_value, string_value, other_value, CompiledCheck, PluginChecker, Item, evaluate,
  has_issue, check_items, check_namespaces, check_plugin,
}

module _ {P O : Type 0} (run_program : P → O → String ⊎ CelValue) where
  -- The condition is true of the object; one that cannot be evaluated is not.
  abbrev is_true : String ⊎ CelValue → Bool
  is_true (inr (bool_value b)) = b
  is_true _ = false

  -- No condition of the plugin is true of the item.
  unfoldable pub is_clean : List (CompiledCheck P) → Item O → Bool
  is_clean [] item = true
  is_clean (cc ∷ ccs) item =
      not (is_true (run_program cc.condition item.object)) && is_clean ccs item

  evaluated :
      (p : P) (object : O) (v : String ⊎ CelValue)
      → run_program p object ≡ v
      → elim (evaluate run_program p object) as (λ x. Bool) [
        | inl err ↦ false
        | inr matched ↦ matched
      ]
        ≡ is_true v
  unfolding evaluate
  evaluated p object (inl err) e = rw (e, evaluate) refl
  evaluated p object (inr (bool_value b)) e = rw (e, evaluate) refl
  evaluated p object (inr (string_value s)) e = rw (e, evaluate) refl
  evaluated p object (inr (other_value type)) e = rw (e, evaluate) refl

  has_issue-clean :
      (ccs : List (CompiledCheck P)) (item : Item O)
      → has_issue run_program item.object ccs ≡ not (is_clean ccs item)
  unfolding has_issue is_clean
  has_issue-clean [] item = refl
  has_issue-clean (cc ∷ ccs) item =
      ground (arith, evaluated cc.condition item.object _ refl, has_issue-clean ccs item)

  module _ (quote : String → String) (list_items : String → String ⊎ List (Item O))
      (checker : PluginChecker P) where
    check_items-healthy :
        (ns : String) (items : List (Item O))
        → (check_items run_program quote checker ns items).1
          ≡ length (keep (is_clean checker.compiled) items)
    unfolding check_items
    check_items-healthy ns [] = refl
    check_items-healthy ns (item ∷ items) =
        ground (arith, has_issue-clean checker.compiled item, check_items-healthy ns items)

    abbrev listed : String → List (Item O)
    listed ns = elim (list_items ns) [ inl err ↦ [] | inr items ↦ items ]

    -- The items of the namespaces that can be listed of which no condition is true.
    unfoldable pub count_clean : List String → ℕ
    unfolding is_clean
    count_clean [] = 0
    count_clean (ns ∷ nss) = length (keep (is_clean checker.compiled) (listed ns)) + count_clean nss

    unfoldable pub some_listed : List String → Bool
    some_listed [] = false
    some_listed (ns ∷ nss) =
        elim (list_items ns) [ inl err ↦ false | inr items ↦ true ] || some_listed nss

    record Counted (nss : List String) (out : List Issue × (ℕ × List String)) : Type 0 where
      healthy : out.1.0 ≡ count_clean nss
      few : length out.1.1 ≤ length nss
      all_failed : eqb (length out.1.1) (length nss) ≡ not (some_listed nss)

    check_namespaces-Counted :
        (nss : List String)
        → Counted nss (check_namespaces run_program quote list_items checker nss)
    unfolding check_namespaces count_clean some_listed
    check_namespaces-Counted [] = record { healthy = refl; few = omega arith; all_failed = refl }
    check_namespaces-Counted (ns ∷ nss) =
        let rest = check_namespaces-Counted nss in
        elim (Sum-cases (list_items ns)) [
          | inl (err, bad) ↦
              rw (bad, check_namespaces)
                (record {
                  healthy = ground (arith, bad, rest.healthy);
                  few = ground (arith, rest.few);
                  all_failed = ground (arith, bad, rest.all_failed);
                })
          | inr (items, good) ↦
              rw (good, check_namespaces)
                (record {
                  healthy = ground (arith, good, rest.healthy, check_items-healthy ns items);
                  few = ground (arith, rest.few);
                  all_failed = ground (arith, good, rest.few);
                })
        ]

    -- The healthy count of a plugin check is the number of items, of the namespaces that can be
    -- listed, of which no condition is true, one that cannot be evaluated counted as not true; and
    -- the result has an error exactly when no namespace could be listed, also when there is none.
    pub check_plugin-counts :
        (nss : List String)
        → ((check_plugin run_program quote list_items checker nss).healthy ≡ count_clean nss)
          × (((check_plugin run_program quote list_items checker nss).error ≡ none)
              ↔ (some_listed nss ≡ true))
    unfolding check_plugin
    check_plugin-counts nss =
        let counted = check_namespaces-Counted nss in
        (
          counted.healthy,
          (λ h. ground (arith, h, counted.all_failed), λ h. ground (arith, h, counted.all_failed)),
        )
