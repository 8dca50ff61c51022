-- ===== src/Checker/Registry/Results.antt =====
-- The results of a run, and their sums.
use kube_assist_operator.Prelude.{
  ℕ, ◌+◌, ◌≡◌, ◌⊎◌, true, false, Bool-cases, refl, ap, ◌∙◌, Option, none, some, List, [], ◌∷◌, map,
  String, string_eq, arith, if◌then◌else◌, length, lookup, insert, lookup-insert, contains, All,
  Option-cases, inl, inr,
}
use text.Mathlib.TextEquality.{eq_iff}
use kube_assist_operator.Causal.Types.{Issue, CheckResult, VisitsEntries}
use kube_assist_operator.Prelude.Texts.{concat}
use kube_assist_operator.Checker.Registry.{
  Checked, returned, errored, panicked, Checker, Registry, Results, run_checker, sent, sends,
  collect, run_all, AggregateResults, or_zero, count_severity, count_result, aggregate_from,
  aggregate,
}

abbrev pub names_of : Results → List String
names_of = map (λ p. p.0)

-- An order of arrival delivers the messages that were sent: no other, and none is lost.
pub record IsArrival (arrive : Results → Results) : Type 1 where
  pub visits : VisitsEntries arrive
  pub delivers :
      (k : String) (ms : Results) → contains k (names_of (arrive ms)) ≡ contains k (names_of ms)

-- A result is that of the checker's run.
abbrev pub Own : Registry → String × Option CheckResult → Type 0
Own r (name, result) = result ≡ sent name (run_checker r name)

sends-Own : (r : Registry) (names : List String) → All (Own r) (sends r names)
unfolding sends
sends-Own r [] = tt
sends-Own r (n ∷ ns) = (refl, sends-Own r ns)

names_of-sends : (r : Registry) (names : List String) → names_of (sends r names) ≡ names
unfolding sends
names_of-sends r [] = refl
names_of-sends r (n ∷ ns) = ap (λ m. n ∷ m) (names_of-sends r ns)

lookup-collect :
    (r : Registry) (k : String) (m ms : Results)
    → All (Own r) ms
    → lookup k (collect m ms)
      ≡ (if contains k (names_of ms) then some (sent k (run_checker r k)) else lookup k m)
unfolding collect contains
lookup-collect r k m [] h = refl
lookup-collect r k m ((n, v) ∷ ms) h =
    let (own, rest) = h in
    let ih = lookup-collect r k (insert n v m) ms rest in
    let at = lookup-insert n k v m in
    let value : n ≡ k → v ≡ sent k (run_checker r k) =
      λ e. own ∙ ap (λ j. sent j (run_checker r j)) e in
    ground (arith, ih, at, eq_iff n k, value)

-- A result that only tells an error.
abbrev pub failure : String → String → CheckResult
failure name text = record { checker_name = name; healthy = 0; issues = []; error = some text }

-- What is due for a name: an error that says why nothing was checked, or what the checker that is
-- registered under it gives, with an error or a panic of it told in a result.
pub data IsDue (r : Registry) (name : String) : Option CheckResult → Type 0 where
  not_found :
      lookup name r ≡ none
      → IsDue r name (some (failure name (concat ("checker \"" ∷ name ∷ "\" not found" ∷ []))))
  not_supported :
      (c : Checker)
      → lookup name r ≡ some c
      → c.supports ≡ false
      → IsDue r name (
          some (
            failure name
              (concat ("checker \"" ∷ name ∷ "\" is not supported in this environment" ∷ []))))
  checked :
      (c : Checker) (result : Option CheckResult)
      → lookup name r ≡ some c
      → c.supports ≡ true
      → c.check ≡ returned result
      → IsDue r name result
  failed :
      (c : Checker) (text : String)
      → lookup name r ≡ some c
      → c.supports ≡ true
      → c.check ≡ errored text
      → IsDue r name (some (failure name text))
  recovered :
      (c : Checker) (text : String)
      → lookup name r ≡ some c
      → c.supports ≡ true
      → c.check ≡ panicked text
      → IsDue r name
          (some (failure name (concat ("checker \"" ∷ name ∷ "\" panicked: " ∷ text ∷ []))))

sent-IsDue : (r : Registry) (name : String) → IsDue r name (sent name (run_checker r name))
unfolding run_checker
sent-IsDue r name = elim (Option-cases (lookup name r)) [
  | inl missing ↦ rw (missing, run_checker) (not_found missing)
  | inr (c, there) ↦ elim (Bool-cases c.supports) [
    | inr off ↦ rw (there, off, run_checker) (not_supported c there off)
    | inl on ↦ elim (Checked-cases c.check) [
      | inl (result, gave) ↦ rw (there, on, gave, run_checker) (checked c result there on gave)
      | inr (inl (text, err)) ↦ rw (there, on, err, run_checker) (failed c text there on err)
      | inr (inr (text, bad)) ↦ rw (there, on, bad, run_checker) (recovered c text there on bad)
    ]
  ]
]
  where
    Checked-cases :
        (c : Checked)
        → ((result : Option CheckResult) × (c ≡ returned result))
          ⊎ (((text : String) × (c ≡ errored text)) ⊎ ((text : String) × (c ≡ panicked text)))
    Checked-cases (returned result) = inl (result, refl)
    Checked-cases (errored text) = inr (inl (text, refl))
    Checked-cases (panicked text) = inr (inr (text, refl))

-- Exactly the names asked for have a result, and it is the one that is due.
abbrev pub Answers : Registry → List String → Results → Type 0
Answers r names results =
    (k : String)
    → ((contains k names ≡ true)
        × ((result : Option CheckResult) × (lookup k results ≡ some result) × IsDue r k result))
      ⊎ ((contains k names ≡ false) × (lookup k results ≡ none))

collect-Answers :
    (arrive : Results → Results) (r : Registry) (names : List String)
    → IsArrival arrive
    → Answers r names (collect [] (arrive (sends r names)))
unfolding lookup
collect-Answers arrive r names a k =
    let at : lookup k (collect [] (arrive (sends r names)))
        ≡ (if contains k names then some (sent k (run_checker r k)) else none) =
      lookup-collect r k [] (arrive (sends r names))
        (a.visits (Own r) (sends r names) (sends-Own r names))
      ∙ ap (λ c. if c then some (sent k (run_checker r k)) else none)
          (a.delivers k (sends r names) ∙ ap (contains k) (names_of-sends r names)) in
    elim (Bool-cases (contains k names)) [
      | inl asked ↦ inl (
        asked,
        (
          sent k (run_checker r k),
          at ∙ ap (λ c. if c then some (sent k (run_checker r k)) else none) asked,
          sent-IsDue r k,
        ),
      )
      | inr other ↦
          inr (other, at ∙ ap (λ c. if c then some (sent k (run_checker r k)) else none) other)
    ]

-- Whatever the order in which the goroutines answer, as long as it delivers what was sent, `RunAll`
-- gives a result for exactly the names asked for, or for exactly the registered ones where none are asked for:
-- what the name's own checker returns; and a result with the error where no checker has the name or
-- it is not supported, where it fails, and where it panics.
pub run_all_lem :
    (arrive : Results → Results) (r : Registry) (names : List String)
    → IsArrival arrive
    → Answers r names (run_all arrive r (some names))
      × Answers r (map (λ p. p.0) r) (run_all arrive r none)
unfolding run_all
run_all_lem arrive r names a =
    (collect-Answers arrive r names a, collect-Answers arrive r (map (λ p. p.0) r) a)

abbrev pub sum : List (String × ℕ) → ℕ
sum [] = 0
sum ((k, n) ∷ m) = n + sum m

sum-insert :
    (k : String) (m : List (String × ℕ)) → sum (insert k (or_zero (lookup k m) + 1) m) ≡ sum m + 1
unfolding insert lookup
sum-insert k [] = omega arith
sum-insert k ((j, n) ∷ m) = ground (arith, sum-insert k m)

sum-count_severity :
    (m : List (String × ℕ)) (is : List Issue) → sum (count_severity m is) ≡ sum m + length is
unfolding count_severity
sum-count_severity m [] = omega arith
sum-count_severity m (i ∷ is) = omega (
  arith,
  sum-count_severity (insert i.severity (or_zero (lookup i.severity m) + 1) m) is,
  sum-insert i.severity m,
)

abbrev pub IsSummed : AggregateResults → Type 0
IsSummed agg = sum agg.by_severity ≡ agg.total_issues

count_result-IsSummed :
    (agg : AggregateResults) (name : String) (result : CheckResult)
    → IsSummed agg
    → IsSummed (count_result agg name result)
count_result-IsSummed agg name result h = elim (Option-cases result.error) [
  | inl fine ↦ rw fine (omega (arith, sum-count_severity agg.by_severity result.issues, h))
  | inr (text, bad) ↦ rw bad h
]

-- The result is not a nil pointer.
abbrev pub IsGiven : String × Option CheckResult → Type 0
IsGiven (name, none) = ⊥
IsGiven (name, some result) = Unit

aggregate_from-IsSummed :
    (agg : AggregateResults) (rs : Results)
    → IsSummed agg
    → All IsGiven rs
    → (out : AggregateResults) × (aggregate_from agg rs ≡ some out) × IsSummed out
unfolding aggregate_from
aggregate_from-IsSummed agg [] h g = (agg, refl, h)
aggregate_from-IsSummed agg ((n, none) ∷ rs) h g = absurd g.0
aggregate_from-IsSummed agg ((n, some r) ∷ rs) h g =
    aggregate_from-IsSummed (count_result agg n r) rs (count_result-IsSummed agg n r h) g.1

-- `Aggregate` of results that are all given does not panic, and its counts by severity add up to
-- its total of issues, when the range over the map visits entries of the map only.
pub aggregate-IsSummed :
    (range : Results → Results) (rs : Results)
    → VisitsEntries range
    → All IsGiven rs
    → (out : AggregateResults) × (aggregate range rs ≡ some out) × IsSummed out
unfolding aggregate
aggregate-IsSummed range rs visits g =
    aggregate_from-IsSummed
      (record {
        total_healthy = 0;
        total_issues = 0;
        by_severity = [];
        by_checker = rs;
        checker_errors = [];
      })
      (range rs) refl (visits IsGiven rs g)
