-- ===== src/Checker/Registry/Tests.antt =====
-- Three checkers, of which one panics and one is not supported.
use kube_assist_operator.Prelude.{
  ◌≡◌, refl, true, false, Bool, none, some, List, [], ◌∷◌, String, string_eq, lookup, map,
}
use kube_assist_operator.Checker.Registry.{
  Checker, returned, panicked, Registry, Results, register, run_all, AggregateResults, aggregate,
}
use kube_assist_operator.Checker.Registry.Results.{
  IsSummed, Answers, run_all_lem, aggregate-IsSummed,
}

abbrev checker : String → Bool → Checker
checker name supports = record {
  name = name;
  supports = supports;
  check = returned (some (record { checker_name = name; healthy = 2; issues = []; error = none }));
}

abbrev registry : Registry
registry =
    ("pvcs", checker "pvcs" true)
    ∷ ("flux", checker "flux" false)
    ∷ ("quotas", record { name = "quotas"; supports = true; check = panicked "nil map" })
    ∷ []

-- A name is registered once.
register_twice : register registry (checker "flux" true) ≡ (registry, false)
unfolding register lookup
register_twice = refl

abbrev asked : List String
asked = "quotas" ∷ "pvcs" ∷ []

abbrev registered : List String
registered = map (λ p. p.0) registry

run_all_lem_example :
    Answers registry asked (run_all (λ m. m) registry (some asked))
    × Answers registry registered (run_all (λ m. m) registry none)
run_all_lem_example =
    run_all_lem (λ m. m) registry asked (record { visits = λ Q m h. h; delivers = λ k ms. refl })

abbrev results : Results
results =
    (
      "pvcs",
      some (record {
        checker_name = "pvcs";
        healthy = 2;
        issues =
            record {
              type = "Pending";
              severity = "Warning";
              resource = "pvc/a";
              namespace = "shop";
              message = "";
              suggestion = "";
              metadata = [];
            }
            ∷ [];
        error = none;
      }),
    )
    ∷ []

aggregate-IsSummed_example :
    (out : AggregateResults) × (aggregate (λ m. m) results ≡ some out) × IsSummed out
aggregate-IsSummed_example = aggregate-IsSummed (λ m. m) results (λ Q m h. h) (tt, tt)
