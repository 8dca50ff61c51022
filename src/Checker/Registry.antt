-- ===== src/Checker/Registry.antt =====
-- internal/checker/registry.go. A checker is code behind an interface: it stands by its name and
-- by what its methods return in the environment of one run.
pub mod Results
mod Tests
use kube_assist_operator.Prelude.{
  ℕ, ◌+◌, Bool, true, false, Option, none, some, List, [], ◌∷◌, ◌++◌, map, String, string_eq, not,
  if◌then◌else◌, length, lookup, insert, delete, contains,
}
use kube_assist_operator.Prelude.Texts.{concat}
use kube_assist_operator.Causal.Types.{Issue, CheckResult}

-- What `Check` does: it returns a result, which may be nil, or an error, or it panics.
pub data Checked : Type 0 where
  returned : Option CheckResult → Checked
  errored : String → Checked
  panicked : String → Checked

pub record Checker : Type 0 where
  pub name : String
  pub supports : Bool
  pub check : Checked

-- `r.checkers`
abbrev pub Registry : Type 0
Registry = List (String × Checker)

abbrev pub new_registry : Registry
new_registry = []

-- The boolean is false for an error.
unfoldable pub register : Registry → Checker → Registry × Bool
unfolding lookup insert
register r c = elim (lookup c.name r) [ some old ↦ (r, false) | none ↦ (insert c.name c r, true) ]

unfoldable pub unregister : Registry → String → Registry × Bool
unfolding lookup delete
unregister r name = elim (lookup name r) [ some old ↦ (delete name r, true) | none ↦ (r, false) ]

unfoldable pub replace : Registry → Checker → Registry
unfolding insert
replace r c = insert c.name c r

-- `Run` of one checker.
unfoldable pub run_checker : Registry → String → Checked
unfolding lookup
run_checker r name = elim (lookup name r) [
  | none ↦ errored (concat ("checker \"" ∷ name ∷ "\" not found" ∷ []))
  | some c ↦
      if not c.supports
      then returned (
          some (record {
            checker_name = name;
            healthy = 0;
            issues = [];
            error =
                some
                  (concat ("checker \"" ∷ name ∷ "\" is not supported in this environment" ∷ []));
          }))
      else c.check
]

abbrev pub failed_result : String → String → CheckResult
failed_result name text = record {
  checker_name = name;
  healthy = 0;
  issues = [];
  error = some text;
}

-- What the goroutine of a name sends, its recovery from a panic included.
abbrev pub sent : String → Checked → Option CheckResult
sent name (returned result) = result
sent name (errored text) = some (failed_result name text)
sent name (panicked text) =
    some (failed_result name (concat ("checker \"" ∷ name ∷ "\" panicked: " ∷ text ∷ [])))

abbrev pub Results : Type 0
Results = List (String × Option CheckResult)

unfoldable pub sends : Registry → List String → Results
unfolding run_checker
sends r [] = []
sends r (name ∷ names) = (name, sent name (run_checker r name)) ∷ sends r names

-- `results[res.name] = res.result` for each message of the channel.
unfoldable pub collect : Results → Results → Results
unfolding insert
collect results [] = results
collect results ((name, result) ∷ messages) = collect (insert name result results) messages

-- The messages arrive in any order.
unfoldable pub run_all : (Results → Results) → Registry → Option (List String) → Results
unfolding sends collect
run_all arrive r none = collect [] (arrive (sends r (map (λ p. p.0) r)))
run_all arrive r (some names) = collect [] (arrive (sends r names))

pub record AggregateResults : Type 0 where
  pub total_healthy : ℕ
  pub total_issues : ℕ
  pub by_severity : List (String × ℕ)
  pub by_checker : Results
  pub checker_errors : List String

abbrev pub or_zero : Option ℕ → ℕ
or_zero none = 0
or_zero (some n) = n

-- `agg.BySeverity[issue.Severity]++`
unfoldable pub count_severity : List (String × ℕ) → List Issue → List (String × ℕ)
unfolding lookup insert
count_severity m [] = m
count_severity m (i ∷ is) =
    count_severity (insert i.severity (or_zero (lookup i.severity m) + 1) m) is

abbrev pub count_result : AggregateResults → String → CheckResult → AggregateResults
count_result agg name result = elim (result.error) [
  | some text ↦ record agg {
    checker_errors = agg.checker_errors ++ (concat (name ∷ ": " ∷ text ∷ []) ∷ []);
  }
  | none ↦ record agg {
    total_healthy = agg.total_healthy + result.healthy;
    total_issues = agg.total_issues + length result.issues;
    by_severity = count_severity agg.by_severity result.issues;
  }
]

-- The loop of `Aggregate`; a nil result panics.
unfoldable pub aggregate_from : AggregateResults → Results → Option AggregateResults
unfolding count_severity
aggregate_from agg [] = some agg
aggregate_from agg ((name, none) ∷ results) = none
aggregate_from agg ((name, some result) ∷ results) =
    aggregate_from (count_result agg name result) results

unfoldable pub aggregate : (Results → Results) → Results → Option AggregateResults
unfolding aggregate_from
aggregate range results =
    aggregate_from
      (record {
        total_healthy = 0;
        total_issues = 0;
        by_severity = [];
        by_checker = results;
        checker_errors = [];
      })
      (range results)
