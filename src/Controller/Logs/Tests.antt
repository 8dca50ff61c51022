-- ===== src/Controller/Logs/Tests.antt =====
-- Two pods: one logs three bytes, and the logs of the other fail after two.
use kube_assist_operator.Prelude.{
  ◌+◌, ◌*◌, ◌≤◌, ◌≡◌, refl, true, List, [], ◌∷◌, String, string_eq, arith, Bool-cases, inl, inr,
  ◌==◌, if◌then◌else◌,
}
use kube_assist_operator.Prelude.Texts.{codes}
use kube_assist_operator.Checker.Workload.Pods.{Container, Pod}
use kube_assist_operator.Controller.Logs.{
  LogStream, no_read, holds, max_total_size, max_per_container, collect_entries,
}
use kube_assist_operator.Controller.Logs.Bounds.{
  bytes_of, containers_of, ErrorsWithin, collect_entries_bounds,
}

abbrev container : String → Container
container name = record {
  name = name;
  memory_limit = 1;
  cpu_limit = 1;
  memory_request = 1;
  cpu_request = 1;
  liveness_probe = true;
  readiness_probe = true;
}

abbrev pod : String → Pod
pod name = record {
  name = name;
  namespace = "shop";
  labels = [];
  phase = "Running";
  container_statuses = [];
  conditions = [];
  containers = container "main" ∷ [];
}

abbrev stream : Pod → Container → LogStream
stream p c = if p.name == "a" then holds (codes "abc") else no_read (codes "ab") (codes "EOF")

abbrev pods : List Pod
pods = pod "a" ∷ pod "b" ∷ []

two_entries_collected :
    let out = collect_entries stream pods in
    out.entries ≡ ("a-main", codes "abc") ∷ ("b-main", codes "Error reading logs: EOF") ∷ []
unfolding collect_entries
two_entries_collected = refl

errors_within : (p : Pod) (c : Container) → ErrorsWithin 3 (stream p c)
errors_within p c = elim (Bool-cases (p.name == "a")) [
  | inl a ↦ rw a tt
  | inr b ↦ rw b (omega arith)
]

collect_entries_bounds_example :
    let out = collect_entries stream pods in
    (out.total_size ≤ max_total_size + max_per_container)
    × (bytes_of out.entries ≤ out.total_size + containers_of pods * (3 + 128))
collect_entries_bounds_example = collect_entries_bounds stream 3 errors_within pods
