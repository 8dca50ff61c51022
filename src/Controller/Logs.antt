-- ===== src/Controller/Logs.antt =====
-- internal/controller/troubleshootrequest_controller.go: the loops of `collectLogs`. What the
-- Kubernetes API gives for a container is a parameter. A text is the list of its bytes.
pub mod Bounds
mod Tests
use kube_assist_operator.Prelude.{
  ℕ, ◌+◌, ◌*◌, Bool, true, false, Option, none, some, List, [], ◌∷◌, ◌++◌, String, string_eq, leb,
  ltb, if◌then◌else◌, length, take, insert,
}
use kube_assist_operator.Prelude.Texts.{codes, concat}
use kube_assist_operator.Checker.Workload.Pods.{Container, Pod}

abbrev pub max_per_container : ℕ
max_per_container = 65536

abbrev pub max_total_size : ℕ
max_total_size = 921600

abbrev pub Bytes : Type 0
Bytes = List ℕ

-- Opening the stream fails, with the text of the error; reading from it fails after some bytes,
-- which `io.Copy` counts and the code discards; or it holds these bytes.
pub data LogStream : Type 0 where
  no_stream : (text : Bytes) → LogStream
  no_read : (before text : Bytes) → LogStream
  holds : Bytes → LogStream

abbrev pub note_container : Bytes
note_container = codes "\n[truncated: exceeded 64KB per-container limit]"

abbrev pub note_total : Bytes
note_total = codes "\n[truncated: total log size exceeded 900KB]"

pub record Collected : Type 0 where
  pub entries : List (String × Bytes)
  pub total_size : ℕ

abbrev pub log_key : String → String → String
log_key pod container = concat (pod ∷ "-" ∷ container ∷ [])

abbrev pub put_log : String → Bytes → Collected → Collected
put_log key text out = record out { entries = insert key text out.entries }

-- `io.LimitReader` and the note that a full read gets.
abbrev pub read_limited : Bytes → Bytes
read_limited bytes = take max_per_container bytes

abbrev pub log_content : Bytes → Bytes
log_content read = if leb max_per_container (length read) then read ++ note_container else read

module _ (stream : Pod → Container → LogStream) where
  -- The inner loop. It breaks when the total is too large.
  unfoldable pub collect_containers : Pod → List Container → Collected → Collected
  unfolding insert concat
  collect_containers pod [] out = out
  collect_containers pod (c ∷ cs) out = elim (stream pod c) [
    | no_stream text ↦
        collect_containers pod cs
          (put_log (log_key pod.name c.name) (codes "Error getting logs: " ++ text) out)
    | no_read before text ↦
        collect_containers pod cs
          (put_log (log_key pod.name c.name) (codes "Error reading logs: " ++ text) out)
    | holds bytes ↦
        let read = read_limited bytes in
        let key = log_key pod.name c.name in
        let out' = record out { total_size = out.total_size + length read } in
        elim (ltb max_total_size out'.total_size) [
          | true ↦ put_log key (log_content read ++ note_total) out'
          | false ↦ collect_containers pod cs (put_log key (log_content read) out')
        ]
  ]

  unfoldable pub collect_pods : List Pod → Collected → Collected
  unfolding collect_containers
  collect_pods [] out = out
  collect_pods (pod ∷ pods) out =
      let out' = collect_containers pod pod.containers out in
      elim (ltb max_total_size out'.total_size) [ true ↦ out' | false ↦ collect_pods pods out' ]

  unfoldable pub collect_entries : List Pod → Collected
  unfolding collect_pods
  collect_entries pods = collect_pods pods (record { entries = []; total_size = 0 })
