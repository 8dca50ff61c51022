-- ===== src/Ai/Cache/Tests.antt =====
-- A cache of two entries: a read keeps its entry, and one entry grows too old.
use kube_assist_operator.Prelude.{
  ℕ, ◌≤◌, ◌<◌, ◌≡◌, refl, true, none, some, List, [], ◌∷◌, string_eq, arith, length, All,
}
use kube_assist_operator.Ai.Cache.{new_cache, CacheCall, fetch, store, wipe, run, size}
use kube_assist_operator.Ai.Cache.Runs.{lru_run, run-refines}
use kube_assist_operator.Ai.Cache.Answers.{IsSound, run-IsSound}

abbrev calls : List (CacheCall ℕ)
calls =
    store 0 "a" (some 1)
    ∷ store 1 "b" (some 2)
    ∷ store 1 "n" none
    ∷ fetch 2 "a"
    ∷ store 3 "c" (some 4)
    ∷ fetch 4 "b"
    ∷ fetch 10 "a"
    ∷ fetch 11 "a"
    ∷ wipe
    ∷ fetch 12 "c"
    ∷ []

-- The entry read last stays, the other one is evicted.
two_entries :
    (run (some (new_cache 2 10 true)) calls).1
    ≡ (2, "a", some 1) ∷ (4, "b", none) ∷ (10, "a", some 1) ∷ (11, "a", none) ∷ (12, "c", none) ∷ []
unfolding run new_cache
two_entries = refl

run-refines_example :
    let (c, answers) = run (some (new_cache 2 10 true)) calls in
    let (m, expected) = lru_run 2 10 [] calls in
    (answers ≡ expected) × (size c ≡ length m) × (size c ≤ 2)
run-refines_example = run-refines 2 10 calls (omega arith)

run-IsSound_example : All (IsSound (λ k r at. at < r) 10) (run (some (new_cache 2 10 true)) calls).1
run-IsSound_example =
    run-IsSound (λ k r at. at < r) 2 10 calls (omega arith)
      (omega arith, (omega arith, (tt, (tt, (omega arith, (tt, (tt, (tt, (tt, (tt, tt))))))))))
