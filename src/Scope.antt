-- ===== src/Scope.antt =====
-- internal/scope/resolver.go: the namespaces of a health check. The data source is a parameter: whether
-- it gets a namespace, and the namespaces that a selector gives, or an error, each with whether it is
-- terminating. `sort.Strings` is the stable sort: equal texts cannot be told apart.
use kube_assist_operator.Prelude.{
  ◌⊎◌, inl, inr, Bool, none, some, List, [], ◌∷◌, String, string_eq, if◌then◌else◌, keep, not,
  contains,
}
use kube_assist_operator.Prelude.Texts.{text_lt}
use kube_assist_operator.Prelude.Sort.{sort_stable}
use kube_assist_operator.Api.TeamHealth.{ScopeConfig}

unfoldable pub validate_namespaces : (String → Bool) → List String → List String
unfolding sort_stable text_lt
validate_namespaces exists_namespace namespaces =
    sort_stable text_lt (keep exists_namespace namespaces)

-- The names of the listed namespaces that are not terminating.
unfoldable pub active_names : List (String × Bool) → List String
active_names [] = []
active_names ((name, terminating) ∷ nss) =
    if terminating then active_names nss else name ∷ active_names nss

unfoldable pub resolve_by_selector :
    {S : Type 0} → (S → String ⊎ List (String × Bool)) → S → String ⊎ List String
unfolding active_names sort_stable text_lt
resolve_by_selector list_namespaces selector = elim (list_namespaces selector) [
  | inl err ↦ inl err
  | inr nss ↦ inr (sort_stable text_lt (active_names nss))
]

unfoldable pub resolve_namespaces :
    {S : Type 0}
    → (String → Bool)
    → (S → String ⊎ List (String × Bool))
    → String
    → ScopeConfig S
    → String ⊎ List String
unfolding validate_namespaces resolve_by_selector
resolve_namespaces exists_namespace list_namespaces default_namespace scope =
    elim (scope.namespaces) [
      | n ∷ ns ↦ inr (validate_namespaces exists_namespace (n ∷ ns))
      | [] ↦ elim (scope.namespace_selector) [
        | some selector ↦ resolve_by_selector list_namespaces selector
        | none ↦ inr (default_namespace ∷ [])
      ]
    ]

abbrev pub system_namespaces : List String
system_namespaces = "kube-system" ∷ "kube-public" ∷ "kube-node-lease" ∷ "flux-system" ∷ []

unfoldable pub filter_system_namespaces : List String → List String
unfolding contains
filter_system_namespaces namespaces = keep (λ ns. not (contains ns system_namespaces)) namespaces
