-- ===== src/Controller/EventLog.antt =====
-- internal/controller/troubleshootrequest_controller.go: the events of `collectEvents`. What the
-- API lists for a name and the format of a time are parameters. A time that is zero is `none`.
use kube_assist_operator.Prelude.{
  ℕ, Bool, true, false, not, ◌||◌, Option, none, some, List, [], ◌∷◌, ◌++◌, map, String, string_eq,
  ◌==◌, eqb, ltb, if◌then◌else◌, contains,
}
use kube_assist_operator.Prelude.Texts.{concat, text_lt}
use kube_assist_operator.Prelude.Sort.{sort_stable}

pub record Event : Type 0 where
  pub uid : String
  pub name : String
  pub involved_object : String
  pub type : String
  pub reason : String
  pub message : String
  pub last_timestamp : Option ℕ
  pub event_time : Option ℕ
  pub first_timestamp : Option ℕ
  pub creation_timestamp : Option ℕ

abbrev pub or_else : Option ℕ → Option ℕ → Option ℕ
or_else (some t) later = some t
or_else none later = later

unfoldable pub event_timestamp : Event → Option ℕ
event_timestamp e =
    or_else e.last_timestamp (or_else e.event_time (or_else e.first_timestamp e.creation_timestamp))

-- The key by which an event is seen.
unfoldable pub seen_key : Event → String
unfolding concat
seen_key e =
    if e.uid == ""
    then concat (e.name ∷ "|" ∷ e.involved_object ∷ "|" ∷ e.reason ∷ "|" ∷ e.message ∷ [])
    else e.uid

-- The inner loop of `listEventsByTargets`, with the keys seen.
unfoldable pub add_new : List Event → List String × List Event → List String × List Event
unfolding seen_key contains
add_new [] (seen, out) = (seen, out)
add_new (e ∷ es) (seen, out) =
    let old = contains (seen_key e) seen in
    add_new es (if old then (seen, out) else (seen_key e ∷ seen, out ++ (e ∷ [])))

unfoldable pub list_events :
    (String → Option (List Event)) → List String → List String × List Event → Option (List Event)
unfolding add_new
list_events list [] (seen, out) = some out
list_events list (name ∷ names) (seen, out) = elim (list name) [
  | none ↦ none
  | some events ↦ list_events list names (add_new events (seen, out))
]

pub record EventRecord : Type 0 where
  pub ts : Option ℕ
  pub log : String

-- `a.Before(b)`: the zero time is before any other.
abbrev pub before : Option ℕ → Option ℕ → Bool
before (some a) (some b) = ltb a b
before none (some b) = true
before a none = false

abbrev pub same_time : Option ℕ → Option ℕ → Bool
same_time (some a) (some b) = eqb a b
same_time none none = true
same_time _ _ = false

abbrev pub earlier_record : EventRecord → EventRecord → Bool
earlier_record r s = if same_time r.ts s.ts then text_lt r.log s.log else before r.ts s.ts

abbrev pub is_old : ℕ → Option ℕ → Bool
is_old since none = false
is_old since (some t) = ltb t since

module _ (format_time : ℕ → String) where
  abbrev pub time_text : Option ℕ → String
  time_text none = "unknown-time"
  time_text (some t) = format_time t

  unfoldable pub event_records : List String → ℕ → List Event → List EventRecord
  unfolding event_timestamp contains concat
  event_records targets since [] = []
  event_records targets since (e ∷ es) =
      let rest = event_records targets since es in
      let ts = event_timestamp e in
      if not (contains e.involved_object targets) || is_old since ts
      then rest
      else record {
        ts = ts;
        log = concat ("[" ∷ time_text ts ∷ "] " ∷ e.type ∷ " " ∷ e.reason ∷ ": " ∷ e.message ∷ []);
      }
        ∷ rest

  -- Records that the order does not tell apart have one text, so that a sort that is not stable
  -- gives the same texts.
  unfoldable pub filter_recent_relevant_events : List Event → List String → ℕ → List String
  unfolding event_records sort_stable
  filter_recent_relevant_events events targets since =
      map (λ r. EventRecord.log r) (sort_stable earlier_record (event_records targets since events))
