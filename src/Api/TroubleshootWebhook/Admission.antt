-- ===== src/Api/TroubleshootWebhook/Admission.antt =====
-- api/v1alpha1/troubleshootrequest_webhook.go against `findTargetPods` of
-- internal/controller/troubleshootrequest_controller.go: what the webhook admits, the controller can
-- look up.
use kube_assist_operator.Prelude.{
  ◌≡◌, ◌⊎◌, inl, inr, arith, refl, Option-cases, string_eq, ◌==◌, true, false, List, [], ◌∷◌,
  String, if◌then◌else◌, contains, contains-All,
}
use kube_assist_operator.Checker.Workload.Pods.{Pod}
use kube_assist_operator.Controller.Troubleshoot.{
  TroubleshootRequest, Spec, Run, Found, found_pods, find_failed, find_target_pods,
  kinds_with_selector,
}
use kube_assist_operator.Api.TroubleshootWebhook.{
  valid_target_kinds, validate_create, validate_update, validate_create-nil, validate_update-nil,
}

-- The requests that the webhook has let in: created, and updated any number of times.
pub data Admitted {C : Type 0} : TroubleshootRequest C → Type 0 where
  created : (tr : TroubleshootRequest C) → validate_create tr ≡ [] → Admitted tr
  updated :
      (old new : TroubleshootRequest C) → Admitted old → validate_update old new ≡ [] → Admitted new

abbrev IsKind : String → Type 0
IsKind kind = (kind ≡ "") ⊎ (contains kind valid_target_kinds ≡ true)

Admitted→IsKind :
    {C : Type 0} (tr : TroubleshootRequest C) → Admitted tr → IsKind tr.spec.target_kind
Admitted→IsKind tr (created _ valid) = ((validate_create-nil tr).0 valid).1.0
Admitted→IsKind new (updated old _ before valid) =
    let same = ((validate_update-nil old new).0 valid).1 in rw same (Admitted→IsKind old before)

abbrev IsLookedUp : String → Type 0
IsLookedUp kind =
    (contains kind kinds_with_selector ≡ true)
    ⊎ ((contains kind kinds_with_selector ≡ false) × ((kind == "Pod") ≡ true))

IsKind→IsLookedUp : (kind : String) → IsKind kind → IsLookedUp kind
unfolding contains
IsKind→IsLookedUp kind (inl empty) = inl (rw empty refl)
IsKind→IsLookedUp kind (inr valid) =
    contains-All IsLookedUp kind valid_target_kinds
      (inl refl, (inl refl, (inl refl, (inr (refl, refl), (inl refl, tt))))) valid

module _ {S : Type 0} (run : Run S) where
  -- Every lookup is answered by the API server.
  abbrev Answered : Found → Type 0
  Answered found =
      (found ≡ find_failed run.find_error) ⊎ ((pods : List Pod) × (found ≡ found_pods pods))

  find_target_pods-Answered :
      (spec : Spec) → IsLookedUp spec.target_kind → Answered (find_target_pods run spec)
  unfolding find_target_pods
  find_target_pods-Answered spec (inl selected) =
      let kind = if spec.target_kind == "" then "Deployment" else spec.target_kind in
      elim (Option-cases (run.get_selector kind spec.target_name)) [
        | inl missing ↦ rw (selected, missing, find_target_pods) (inl refl)
        | inr (selector, got) ↦ elim (Option-cases (run.list_matching selector)) [
          | inl refused ↦ rw (selected, got, refused, find_target_pods) (inl refl)
          | inr (pods, listed) ↦ rw (selected, got, listed, find_target_pods) (inr (pods, refl))
        ]
      ]
  find_target_pods-Answered spec (inr (plain, pod)) =
      elim (Option-cases (run.get_pod spec.target_name)) [
        | inl missing ↦ rw (plain, pod, missing, find_target_pods) (inl refl)
        | inr (p, got) ↦ rw (plain, pod, got, find_target_pods) (inr (p ∷ [], refl))
      ]

  -- An error in looking for the pods of a request that the webhook let in, at its creation and at
  -- each update, is an error of the API server: it is never that the kind is not supported.
  pub find_target_pods-Admitted :
      {C : Type 0} (tr : TroubleshootRequest C) (error : String)
      → Admitted tr
      → find_target_pods run tr.spec ≡ find_failed error
      → error ≡ run.find_error
  find_target_pods-Admitted tr error admitted lost =
      elim (find_target_pods-Answered tr.spec (IsKind→IsLookedUp _ (Admitted→IsKind tr admitted))) [
        | inl answered ↦ ground (arith, lost, answered)
        | inr (pods, answered) ↦ absurd (ground (arith, lost, answered))
      ]
