-- ===== src/Api/TeamHealthWebhook/Accepted.antt =====
-- api/v1alpha1/teamhealthrequest_webhook.go: which requests for a health check are let in.
use kube_assist_operator.Prelude.{
  ℕ, ◌+◌, ◌≡◌, ◌≢◌, ◌↔◌, ◌⊎◌, inl, inr, arith, refl, ap, ◌∙◌, Bool, Bool-cases, Option-cases, not,
  ◌&&◌, string_eq, ◌==◌, same_sym, true, false, Option, none, some, List, [], ◌∷◌, String, contains,
  eqb, length, All, Distinct,
}
use kube_assist_operator.Api.Errors.{
  index, IsLifetime, append-nil, error_if-nil, empty-nil, ttl_errors-nil,
}
use kube_assist_operator.Api.TeamHealth.{
  ScopeConfig, SecretKeyRef, NotificationTarget, TeamHealthRequest, Url,
}
use kube_assist_operator.Api.TeamHealthWebhook.{
  valid_checker_names, check_errors, http_allowed, is_some, url_errors, target_errors,
  notify_errors, duplicate_errors, scope_errors, validate_spec,
}

abbrev pub IsChecker : String → Type 0
IsChecker check = contains check valid_checker_names ≡ true

-- A URL that parses, with HTTPS unless the annotation is set.
abbrev pub IsSafe : (String → Option Url) → Bool → String → Type 0
IsSafe parse allowed url =
    (u : Url) × ((parse url ≡ some u) × ((u.scheme ≡ "https") ⊎ (allowed ≡ true)))

-- Either a secret or such a URL, and not both.
abbrev pub IsTarget : (String → Option Url) → Bool → NotificationTarget → Type 0
IsTarget parse allowed target =
    ((target.url ≡ "") × ((ref : SecretKeyRef) × (target.secret_ref ≡ some ref)))
    ⊎ ((target.url ≢ "") × ((target.secret_ref ≡ none) × IsSafe parse allowed target.url))

-- The request's own namespace excludes the other two, and no namespace is listed twice.
abbrev pub IsScope : {S : Type 0} → ScopeConfig S → Type 0
IsScope scope =
    ((scope.current_namespace_only ≡ false) ⊎ (scope.namespaces ≡ []))
    × (((scope.current_namespace_only ≡ false) ⊎ (scope.namespace_selector ≡ none))
        × Distinct scope.namespaces)

check_errors-nil :
    (i : ℕ) (checks : List String) → (check_errors i checks ≡ []) ↔ All IsChecker checks
unfolding check_errors
check_errors-nil i [] = (λ h. tt, λ h. refl)
check_errors-nil i (check ∷ checks) =
    append-nil _ _ (error_if-nil _ _ (λ h. ground (arith, h), λ h. ground (arith, h)))
      (check_errors-nil (i + 1) checks)

abbrev Unseen : List String → List String → Type 0
Unseen seen nss = All (λ ns. contains ns seen ≡ false) nss

Unseen-cons :
    (n : String) (seen nss : List String)
    → Unseen (n ∷ seen) nss ↔ ((contains n nss ≡ false) × Unseen seen nss)
unfolding contains
Unseen-cons n seen [] = (λ h. (refl, tt), λ h. tt)
Unseen-cons n seen (m ∷ nss) =
    let rest = Unseen-cons n seen nss in
    (
      λ h. (
        ground (arith, h.0, same_sym n m, (rest.0 h.1).0),
        (ground (arith, h.0), (rest.0 h.1).1),
      ),
      λ h. (ground (arith, h.0, h.1.0, same_sym n m), rest.1 (ground (arith, h.0), h.1.1)),
    )

duplicate_errors-nil :
    (seen : List String) (i : ℕ) (nss : List String)
    → (duplicate_errors seen i nss ≡ []) ↔ (Distinct nss × Unseen seen nss)
unfolding duplicate_errors
duplicate_errors-nil seen i [] = (λ h. (tt, tt), λ h. refl)
duplicate_errors-nil seen i (n ∷ nss) =
    let one = error_if-nil _ _ (λ h. h, λ h. h) in
    let rest = duplicate_errors-nil (n ∷ seen) (i + 1) nss in
    let both = append-nil _ _ one rest in
    let split = Unseen-cons n seen nss in
    (
      λ h. (
        ((split.0 (both.0 h).1.1).0, (both.0 h).1.0),
        ((both.0 h).0, (split.0 (both.0 h).1.1).1),
      ),
      λ h. both.1 (h.1.0, (h.0.1, split.1 (h.0.0, h.1.1))),
    )

module _ (parse : String → Option Url) (allowed : Bool) where
  https_or :
      (u : Url)
      → (not (u.scheme == "https") && not allowed) ≡ false
      → (u.scheme ≡ "https") ⊎ (allowed ≡ true)
  https_or u h = elim (Bool-cases (u.scheme == "https")) [
    | inl same ↦ inl ((string_eq.same_iff u.scheme "https").0 same)
    | inr other ↦ inr (ground (arith, h, other))
  ]

  not_http :
      (u v : Url)
      → u ≡ v
      → (v.scheme ≡ "https") ⊎ (allowed ≡ true)
      → (not (u.scheme == "https") && not allowed) ≡ false
  not_http u v same (inl https) =
      let e : u.scheme ≡ "https" = ap Url.scheme same ∙ https in rw e refl
  not_http u v same (inr permitted) = ground (arith, permitted)

  url_errors-nil :
      (path url : String) → (url_errors parse allowed path url ≡ []) ↔ IsSafe parse allowed url
  unfolding url_errors
  url_errors-nil path url = elim (Option-cases (parse url)) [
    | inl bad ↦
        rw (bad, url_errors) (λ h. absurd (ground (arith, h)), λ h. absurd (ground (arith, h.1.0)))
    | inr (u, got) ↦
        rw (got, url_errors)
          (error_if-nil _ _
            (λ h. (u, (refl, https_or u h)), λ h. not_http u h.0 (ground (arith, h.1.0)) h.1.1))
  ]

  target_errors-nil :
      (path : String) (target : NotificationTarget)
      → (target_errors parse allowed path target ≡ []) ↔ IsTarget parse allowed target
  unfolding target_errors
  target_errors-nil path target =
      let empty = string_eq.same_iff target.url "" in
      let given = (empty-nil target.url).0 in
      let checked = url_errors-nil path target.url in
      elim (Bool-cases (target.url == "")) [
        | inl unset ↦ elim (Option-cases target.secret_ref) [
          | inl missing ↦
              rw (unset, missing, target_errors)
                (
                  λ h. absurd (ground (arith, h)),
                  λ h. elim h [
                    | inl p ↦ absurd (ground (arith, p.1.1))
                    | inr p ↦ absurd (p.0 (empty.0 unset))
                  ],
                )
          | inr (ref, set) ↦
              rw (unset, set, target_errors) (λ h. inl (empty.0 unset, (ref, refl)), λ h. refl)
        ]
        | inr url ↦ elim (Option-cases target.secret_ref) [
          | inl missing ↦
              rw (url, missing, target_errors)
                (
                  λ h. inr (given url, (refl, checked.0 h)),
                  λ h. elim h [ inl p ↦ absurd (given url p.0) | inr p ↦ checked.1 p.1.1 ],
                )
          | inr (ref, set) ↦
              rw (url, set, target_errors)
                (
                  λ h. absurd (ground (arith, h)),
                  λ h. elim h [
                    | inl p ↦ absurd (given url p.0)
                    | inr p ↦ absurd (ground (arith, p.1.0))
                  ],
                )
        ]
      ]

  notify_errors-nil :
      (i : ℕ) (targets : List NotificationTarget)
      → (notify_errors parse allowed i targets ≡ []) ↔ All (IsTarget parse allowed) targets
  unfolding notify_errors
  notify_errors-nil i [] = (λ h. tt, λ h. refl)
  notify_errors-nil i (target ∷ targets) =
      append-nil _ _ (target_errors-nil (index "spec.notify" i) target)
        (notify_errors-nil (i + 1) targets)

when_own :
    {P : Type 0} (own b : Bool) → (b ≡ false) ↔ P → ((own && b) ≡ false) ↔ ((own ≡ false) ⊎ P)
when_own true b p =
    (λ h. inr (p.0 h), λ h. elim h [ inl e ↦ absurd (ground (arith, e)) | inr q ↦ p.1 q ])
when_own false b p = (λ h. inl refl, λ h. refl)

no_namespaces : (nss : List String) → (not (eqb (length nss) 0) ≡ false) ↔ (nss ≡ [])
no_namespaces [] = (λ h. refl, λ h. refl)
no_namespaces (n ∷ nss) = (λ h. absurd (ground (arith, h)), λ h. absurd (ground (arith, h)))

no_selector : {S : Type 0} (selector : Option S) → (is_some selector ≡ false) ↔ (selector ≡ none)
no_selector none = (λ h. refl, λ h. refl)
no_selector (some s) = (λ h. absurd (ground (arith, h)), λ h. absurd (ground (arith, h)))

Unseen-nil : (nss : List String) → Unseen [] nss
unfolding contains
Unseen-nil [] = tt
Unseen-nil (n ∷ nss) = (refl, Unseen-nil nss)

scope_errors-nil : {S : Type 0} (scope : ScopeConfig S) → (scope_errors scope ≡ []) ↔ IsScope scope
unfolding scope_errors
scope_errors-nil scope =
    let own = scope.current_namespace_only in
    let fresh = duplicate_errors-nil [] 0 scope.namespaces in
    append-nil _ _ (error_if-nil _ _ (when_own own _ (no_namespaces scope.namespaces))) (
      append-nil _ _ (error_if-nil _ _ (when_own own _ (no_selector scope.namespace_selector)))
        (λ h. (fresh.0 h).0, λ h. fresh.1 (h, Unseen-nil scope.namespaces)))

module _ {S C : Type 0} (parse : String → Option Url) where
  abbrev pub IsAccepted : TeamHealthRequest S C → Type 0
  IsAccepted hr =
      All IsChecker hr.spec.checks
      × (IsLifetime hr.spec.ttl_seconds_after_finished
          × (All (IsTarget parse (http_allowed hr.annotations)) hr.spec.notify
              × IsScope hr.spec.scope))

  -- The webhook accepts a request for a health check exactly when its checks are known names, its
  -- lifetime is not set or not negative, every notification target has either a secret or a URL
  -- that parses and is HTTPS unless the annotation is set, the scope is either the request's own
  -- namespace or the others, and no namespace is listed twice.
  pub validate_spec-nil :
      (hr : TeamHealthRequest S C) → (validate_spec parse hr ≡ []) ↔ IsAccepted hr
  unfolding validate_spec
  validate_spec-nil hr = append-nil _ _ (check_errors-nil 0 hr.spec.checks) (
      append-nil _ _ (ttl_errors-nil hr.spec.ttl_seconds_after_finished) (
        append-nil _ _ (notify_errors-nil parse (http_allowed hr.annotations) 0 hr.spec.notify)
          (scope_errors-nil hr.spec.scope)))
