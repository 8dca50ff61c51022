-- ===== src/History/Tests.antt =====
-- A ring of three snapshots, with unit scores.
use kube_assist_operator.Prelude.{
  ℕ, ◌≡◌, refl, not, ltb, none, some, List, [], ◌∷◌, arith, get_elem?, keep, zero, suc, ◌<◌,
}
use kube_assist_operator.History.Slots.{slot}
use kube_assist_operator.History.{
  HealthSnapshot, RingBuffer, pos, negsuc, new, add, latest, last, read_from, since,
}
use kube_assist_operator.History.Refine.{Holds, take_last, add_all, add-Holds, history-Holds}
use kube_assist_operator.History.Reads.{reads_lem}

abbrev at_time : ℕ → HealthSnapshot (Unit {0})
at_time t = record {
  timestamp = t;
  total_healthy = t;
  total_issues = 1;
  by_severity = [];
  by_checker = [];
  health_score = tt;
}

abbrev four : List (HealthSnapshot (Unit {0}))
four = at_time 10 ∷ at_time 20 ∷ at_time 30 ∷ at_time 40 ∷ []

-- The fourth snapshot has overwritten the first.
abbrev wrapped : RingBuffer (Unit {0})
wrapped = record {
  buf = at_time 40 ∷ at_time 20 ∷ at_time 30 ∷ [];
  capacity = 3;
  head = 1;
  count = 3;
}

wraps : add_all (new tt 3) four ≡ some wrapped
unfolding add_all new add
wraps = refl

last_two : last wrapped (pos 2) ≡ some (at_time 30 ∷ at_time 40 ∷ [])
unfolding last read_from
last_two = refl

last_negative : last wrapped (negsuc 0) ≡ none
unfolding last
last_negative = refl

since_25 : since wrapped 25 ≡ some (at_time 30 ∷ at_time 40 ∷ [])
unfolding since
since_25 = refl

wrapped-Holds : Holds wrapped (at_time 20 ∷ at_time 30 ∷ at_time 40 ∷ [])
wrapped-Holds = record {
  storage = refl;
  inside = omega arith;
  counted = refl;
  bounded = omega arith;
  slots = at_slot;
}
  where
    at_slot :
        (i : ℕ)
        → i < 3
        → get_elem? wrapped.buf (slot 3 1 3 i)
          ≡ get_elem? (at_time 20 ∷ at_time 30 ∷ at_time 40 ∷ []) i
    at_slot zero h = refl
    at_slot (suc zero) h = refl
    at_slot (suc (suc zero)) h = refl
    at_slot (suc (suc (suc i))) h = absurd (omega arith)

add-Holds_example :
    (rb' : RingBuffer (Unit {0})) × (add wrapped (at_time 50) ≡ some rb')
    × Holds rb' (at_time 30 ∷ at_time 40 ∷ at_time 50 ∷ [])
    × (rb'.capacity ≡ 3)
add-Holds_example =
    add-Holds wrapped (at_time 20 ∷ at_time 30 ∷ at_time 40 ∷ []) (at_time 50) wrapped-Holds

history-Holds_example :
    (rb : RingBuffer (Unit {0})) × (add_all (new tt 3) four ≡ some rb)
    × Holds rb (at_time 20 ∷ at_time 30 ∷ at_time 40 ∷ [])
history-Holds_example = history-Holds tt 3 four

reads_lem_example :
    (latest wrapped ≡ some (some (at_time 40)))
    × ((n : ℕ)
        → last wrapped (pos n) ≡ some (take_last n (at_time 20 ∷ at_time 30 ∷ at_time 40 ∷ [])))
    × ((t : ℕ)
        → since wrapped t
          ≡ some (keep (λ s. not (ltb s.timestamp t)) (at_time 20 ∷ at_time 30 ∷ at_time 40 ∷ [])))
reads_lem_example = reads_lem wrapped (at_time 20 ∷ at_time 30 ∷ at_time 40 ∷ []) wrapped-Holds
