-- ===== src/Controller/Logs/Bounds.antt =====
-- How much the collected logs take, whatever the containers have logged.
use kube_assist_operator.Prelude.{
  ℕ, zero, suc, ◌+◌, ◌*◌, ◌≤◌, ◌≡◌, refl, List, [], ◌∷◌, ◌++◌, String, string_eq, arith, leb, ltb,
  length, length-append, take, insert, Bool-cases, inl, inr,
}
use kube_assist_operator.Prelude.Texts.{codes}
use kube_assist_operator.Checker.Workload.Pods.{Container, Pod}
use kube_assist_operator.Controller.Logs.{
  Bytes, LogStream, no_stream, no_read, holds, Collected, put_log, log_key, read_limited,
  log_content, note_container, note_total, max_per_container, max_total_size, collect_containers,
  collect_pods, collect_entries,
}

-- The bytes of all entries.
abbrev pub bytes_of : List (String × Bytes) → ℕ
bytes_of [] = 0
bytes_of ((k, text) ∷ m) = length text + bytes_of m

abbrev pub containers_of : List Pod → ℕ
containers_of [] = 0
containers_of (pod ∷ pods) = length pod.containers + containers_of pods

-- The text of an error of the API is no longer than this.
abbrev pub ErrorsWithin : ℕ → LogStream → Type 0
ErrorsWithin slack (no_stream text) = length text ≤ slack
ErrorsWithin slack (no_read before text) = length text ≤ slack
ErrorsWithin slack (holds bytes) = Unit

length-take : (n : ℕ) (xs : Bytes) → length (take n xs) ≤ n
length-take zero xs = omega arith
length-take (suc n) [] = omega arith
length-take (suc n) (x ∷ xs) = omega (arith, length-take n xs)

bytes_of-insert :
    (k : String) (text : Bytes) (m : List (String × Bytes))
    → bytes_of (insert k text m) ≤ bytes_of m + length text
unfolding insert
bytes_of-insert k text [] = omega arith
bytes_of-insert k text ((j, old) ∷ m) = ground (arith, bytes_of-insert k text m)

length-log_content : (read : Bytes) → length (log_content read) ≤ length read + 64
length-log_content read = elim (Bool-cases (leb max_per_container (length read))) [
  | inl full ↦ rw full (omega (arith, length-append read note_container))
  | inr part ↦ rw part (omega arith)
]

-- What the loops keep: the bytes grow by what is read and by the allowance of each container.
abbrev Grows : ℕ → ℕ → Collected → Collected → Type 0
Grows slack n out out' =
    (bytes_of out'.entries + out.total_size
      ≤ bytes_of out.entries + out'.total_size + n * (slack + 128))
    × (out'.total_size ≤ max_total_size + max_per_container)

-- One container, and then the rest.
Grows-step :
    (slack n : ℕ) (out mid out' : Collected)
    → Grows slack 1 out mid
    → Grows slack n mid out'
    → Grows slack (suc n) out out'
Grows-step slack n out mid out' (g, _) (h, bound) =
    let once : suc n * (slack + 128) ≡ n * (slack + 128) + (slack + 128) = grind arith in
    (omega (arith, once, g, h), bound)

-- The allowance may be larger.
Grows-more :
    (slack n : ℕ) (out out' : Collected) → Grows slack 1 out out' → Grows slack (suc n) out out'
Grows-more slack n out out' (g, bound) =
    let once : suc n * (slack + 128) ≡ n * (slack + 128) + (slack + 128) = grind arith in
    (omega (arith, once, g), bound)

put-Grows :
    (slack : ℕ) (key : String) (text : Bytes) (out : Collected) (total : ℕ)
    → length text + out.total_size ≤ total + slack + 128
    → total ≤ max_total_size + max_per_container
    → Grows slack 1 out (put_log key text (record out { total_size = total }))
put-Grows slack key text out total h bound =
    (omega (arith, h, bytes_of-insert key text out.entries), bound)

module _ (stream : Pod → Container → LogStream) (slack : ℕ)
    (errors : (pod : Pod) (c : Container) → ErrorsWithin slack (stream pod c)) where
  container-Grows :
      (pod : Pod) (c : Container) (cs : List Container) (out : Collected)
      → out.total_size ≤ max_total_size
      → ((mid : Collected)
          → mid.total_size ≤ max_total_size
          → Grows slack (length cs) mid (collect_containers stream pod cs mid))
      → (s : LogStream) → stream pod c ≡ s
      → ErrorsWithin slack s
      → Grows slack (length (c ∷ cs)) out (collect_containers stream pod (c ∷ cs) out)
  unfolding collect_containers
  container-Grows pod c cs out h rest (no_stream text) e w =
      let text' = codes "Error getting logs: " ++ text in
      let mid = put_log (log_key pod.name c.name) text' out in
      let size = length-append (codes "Error getting logs: ") text in
      rw (e, collect_containers)
        (Grows-step slack (length cs) out mid _
          (put-Grows slack _ text' out out.total_size (omega (arith, size, w)) (omega (arith, h)))
          (rest mid h))
  container-Grows pod c cs out h rest (no_read before text) e w =
      let text' = codes "Error reading logs: " ++ text in
      let mid = put_log (log_key pod.name c.name) text' out in
      let size = length-append (codes "Error reading logs: ") text in
      rw (e, collect_containers)
        (Grows-step slack (length cs) out mid _
          (put-Grows slack _ text' out out.total_size (omega (arith, size, w)) (omega (arith, h)))
          (rest mid h))
  container-Grows pod c cs out h rest (holds bytes) e w =
      let read = read_limited bytes in
      let total = out.total_size + length read in
      let out' = record out { total_size = total } in
      let few = length-take max_per_container bytes in
      let size = length-log_content read in
      elim (Bool-cases (ltb max_total_size total)) [
        | inl over ↦
            let text' = log_content read ++ note_total in
            let noted = length-append (log_content read) note_total in
            rw (e, over, collect_containers)
              (Grows-more slack (length cs) out _ (
                put-Grows slack _ text' out total (omega (arith, size, noted))
                  (omega (arith, few, h))))
        | inr room ↦
            let mid = put_log (log_key pod.name c.name) (log_content read) out' in
            rw (e, room, collect_containers)
              (Grows-step slack (length cs) out mid _
                (put-Grows slack _ (log_content read) out total (omega (arith, size))
                  (omega (arith, few, h)))
                (rest mid (ground (arith, room))))
      ]

  collect_containers-Grows :
      (pod : Pod) (cs : List Container) (out : Collected)
      → out.total_size ≤ max_total_size
      → Grows slack (length cs) out (collect_containers stream pod cs out)
  unfolding collect_containers
  collect_containers-Grows pod [] out h = (omega arith, omega (arith, h))
  collect_containers-Grows pod (c ∷ cs) out h =
      container-Grows pod c cs out h (λ mid room. collect_containers-Grows pod cs mid room)
        (stream pod c) refl (errors pod c)

  collect_pods-Grows :
      (pods : List Pod) (out : Collected)
      → out.total_size ≤ max_total_size
      → Grows slack (containers_of pods) out (collect_pods stream pods out)
  unfolding collect_pods
  collect_pods-Grows [] out h = (omega arith, omega (arith, h))
  collect_pods-Grows (pod ∷ pods) out h =
      let mid = collect_containers stream pod pod.containers out in
      let (grown, bound) = collect_containers-Grows pod pod.containers out h in
      let n = length pod.containers in
      let split : (n + containers_of pods) * (slack + 128)
          ≡ n * (slack + 128) + containers_of pods * (slack + 128) =
        grind arith in
      elim (Bool-cases (ltb max_total_size mid.total_size)) [
        | inl over ↦ rw (over, collect_pods) (omega (arith, split, grown), bound)
        | inr room ↦
            let (more, bound') = collect_pods-Grows pods mid (ground (arith, room)) in
            rw (room, collect_pods) (omega (arith, split, grown, more), bound')
      ]

  -- What `collectLogs` counts of the streams that it reads without an error ends at the latest 64 KB past its limit of
  -- 900 KB; bytes that a failing stream gave before its error are not counted. The entries that it stores
  -- take no more than what is counted and, for each container, 128 bytes and the length of
  -- an error's text, however many containers there are and whatever they have logged.
  pub collect_entries_bounds :
      (pods : List Pod)
      → let out = collect_entries stream pods in
        (out.total_size ≤ max_total_size + max_per_container)
        × (bytes_of out.entries ≤ out.total_size + containers_of pods * (slack + 128))
  unfolding collect_entries
  collect_entries_bounds pods =
      let (grown, bound) =
        collect_pods-Grows pods (record { entries = []; total_size = 0 }) (omega arith) in
      (bound, omega (arith, grown))
