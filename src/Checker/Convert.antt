-- ===== src/Checker/Convert.antt =====
-- internal/checker/convert.go: the issues of the checkers as those of the API. The range over the map
-- of results visits the list.
use kube_assist_operator.Prelude.{Option, none, some, List, [], ◌∷◌, ◌++◌, map, String}
use kube_assist_operator.Causal.Types.{Issue, CheckResult}
use kube_assist_operator.Controller.Diagnose.{DiagnosticIssue}

abbrev pub to_api_issue : Issue → DiagnosticIssue
to_api_issue issue = record {
  type = issue.type;
  severity = issue.severity;
  message = issue.message;
  suggestion = issue.suggestion;
}

abbrev pub to_api_issues : List Issue → List DiagnosticIssue
to_api_issues issues = map to_api_issue issues

abbrev pub from_api_issue : DiagnosticIssue → Issue
from_api_issue issue = record {
  type = issue.type;
  severity = issue.severity;
  resource = "";
  namespace = "";
  message = issue.message;
  suggestion = issue.suggestion;
  metadata = [];
}

abbrev pub from_api_issues : List DiagnosticIssue → List Issue
from_api_issues issues = map from_api_issue issues

unfoldable pub merge_results : List (String × Option CheckResult) → List DiagnosticIssue
merge_results [] = []
merge_results ((name, none) ∷ results) = merge_results results
merge_results ((name, some result) ∷ results) =
    elim (result.error) [ none ↦ to_api_issues result.issues | some err ↦ [] ]
    ++ merge_results results
