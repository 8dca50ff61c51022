-- ===== src/Controller/Notify/Policy.antt =====
-- internal/controller/teamhealthrequest_controller.go: which notifications are sent, and where to.
use kube_assist_operator.Prelude.{
  ◌+◌, ◌<◌, ◌≡◌, ◌≢◌, ◌⊎◌, inl, inr, arith, refl, sym, ap, ◌∙◌, Bool, true, false, Bool-cases,
  Option-cases, not, ◌&&◌, ◌||◌, Option, some, List, [], ◌∷◌, String, string_eq, ◌==◌, ltb,
  contains, lookup, All, All-append,
}
use kube_assist_operator.Api.Errors.{empty-nil}
use kube_assist_operator.Api.TeamHealth.{SecretKeyRef, NotificationTarget, TeamHealthRequest, Url}
use kube_assist_operator.Api.TeamHealthWebhook.{http_allowed}
use kube_assist_operator.Controller.Notify.{
  Notification, Sent, notifier_types, severity_met, validate_notification_url, data_at,
  secret_namespace, webhook_url_of, dispatch_target, dispatch_notifications,
}

-- A threshold is met by the counts.
unfoldable pub IsMet : String → Notification → Type 0
IsMet threshold n =
    ((threshold ≢ "Critical") ⊎ (0 < n.critical_count))
    × ((threshold ≢ "Warning") ⊎ (0 < n.critical_count + n.warning_count))

-- A URL with a host and HTTPS, or HTTP where it is allowed.
unfoldable pub IsReachable : (String → Option Url) → Bool → String → Type 0
IsReachable parse allow_http url =
    (u : Url) × ((parse url ≡ some u)
      × ((u.hostname ≢ "") × ((u.scheme ≡ "https") ⊎ ((u.scheme ≡ "http") × (allow_http ≡ true)))))

differs : (a b : String) → (a == b) ≡ false → a ≢ b
differs a b h e = ground (arith, h, (string_eq.same_iff a b).1 e)

is_met :
    (threshold : String) (n : Notification)
    → (not (threshold == "") && not (severity_met threshold n.critical_count n.warning_count))
      ≡ false
    → IsMet threshold n
unfolding severity_met IsMet
is_met threshold n h = elim (Bool-cases (threshold == "Critical")) [
  | inl same ↦
      let e = (string_eq.same_iff threshold "Critical").0 same in
      let h' : not (ltb 0 n.critical_count) ≡ false = rw e at h in
      (inr (ground (arith, h')), inr (ground (arith, h')))
  | inr other ↦ elim (Bool-cases (threshold == "Warning")) [
    | inl same ↦
        let e = (string_eq.same_iff threshold "Warning").0 same in
        let h' : not (ltb 0 n.critical_count || ltb 0 n.warning_count) ≡ false = rw e at h in
        (inl (differs _ _ other), inr (ground (arith, h')))
    | inr other' ↦ (inl (differs _ _ other), inl (differs _ _ other'))
  ]
]

reachable :
    (parse : String → Option Url) (allow_http : Bool) (url : String)
    → validate_notification_url parse allow_http url ≡ true
    → IsReachable parse allow_http url
unfolding validate_notification_url IsReachable
reachable parse allow_http url h = elim (Option-cases (parse url)) [
  | inl bad ↦ absurd (ground (arith, h, bad))
  | inr (u, good) ↦ elim (Bool-cases (u.scheme == "https")) [
    | inl same ↦ (
      u,
      (
        good,
        (differs _ _ (ground (arith, h, good)), inl ((string_eq.same_iff u.scheme "https").0 same)),
      ),
    )
    | inr other ↦ (
      u,
      (
        good,
        (
          differs _ _ (ground (arith, h, good)),
          inr (
            (string_eq.same_iff u.scheme "http").0 (ground (arith, h, good, other)),
            ground (arith, h, good, other),
          ),
        ),
      ),
    )
  ]
]

module _ {S C : Type 0} (parse : String → Option Url) (trim_space : String → String)
    (get_secret : String → String → Option (List (String × String))) (configured : String)
    (hr : TeamHealthRequest S C) where
  -- The URL is the target's, or stands in a secret of the request's own namespace.
  unfoldable pub IsOwnUrl : NotificationTarget → String → Type 0
  IsOwnUrl target url =
      (url ≡ target.url)
      ⊎ ((ref : SecretKeyRef) × (m : List (String × String)) × ((target.secret_ref ≡ some ref)
            × ((get_secret hr.namespace ref.name ≡ some m) × (lookup ref.key m ≡ some url))))

  unfoldable pub IsPermitted : Sent → Type 0
  IsPermitted s =
      (s.target.on_completion ≡ true)
      × (IsMet s.target.on_severity s.notification
          × ((s.webhook_url ≢ "")
              × (IsOwnUrl s.target s.webhook_url
                  × ((contains s.target.type notifier_types ≡ true)
                      × ((s.target.type ≡ "pagerduty")
                          ⊎ IsReachable parse (http_allowed hr.annotations) s.webhook_url)))))

  found_at :
      (key : String) (m : List (String × String)) (v : String)
      → lookup key m ≡ some v
      → lookup key m ≡ some (data_at key m)
  unfolding data_at
  found_at key m v stands = stands ∙ ap some (sym (rw (stands, data_at) refl))

  own_namespace :
      trim_space "" ≡ ""
      → (not (configured == "")
          && not (hr.namespace == secret_namespace parse trim_space get_secret configured hr))
        ≡ false
      → secret_namespace parse trim_space get_secret configured hr ≡ hr.namespace
  own_namespace trims home = elim (Bool-cases (configured == "")) [
    | inl unset ↦ let e = (string_eq.same_iff configured "").0 unset in rw (e, trims) refl
    | inr other ↦ sym ((string_eq.same_iff _ _).0 (ground (arith, home, other)))
  ]

  own_url :
      (target : NotificationTarget)
      → trim_space "" ≡ ""
      → webhook_url_of parse trim_space get_secret configured hr target ≢ ""
      → IsOwnUrl target (webhook_url_of parse trim_space get_secret configured hr target)
  unfolding webhook_url_of data_at IsOwnUrl
  own_url target trims set =
      let ns = secret_namespace parse trim_space get_secret configured hr in
      elim (Bool-cases (target.url == "")) [
        | inr given ↦ rw (given, webhook_url_of) (inl refl)
        | inl unset ↦ elim (Option-cases target.secret_ref) [
          | inl missing ↦ absurd (set (rw (unset, missing, webhook_url_of) refl))
          | inr (ref, has) ↦
              elim (Bool-cases (not (configured == "") && not (hr.namespace == ns))) [
                | inl foreign ↦ absurd (set (rw (unset, has, foreign, webhook_url_of) refl))
                | inr home ↦
                    let at_home = own_namespace trims home in
                    elim (Option-cases (get_secret ns ref.name)) [
                      | inl missing ↦
                          absurd (set (rw (unset, has, home, missing, webhook_url_of) refl))
                      | inr (m, got) ↦ elim (Option-cases (lookup ref.key m)) [
                        | inl missing ↦ absurd (
                            set (
                              rw (unset, has, home, got, webhook_url_of)
                                (rw (missing, data_at) refl)))
                        | inr (v, stands) ↦
                            rw (unset, has, home, got, webhook_url_of)
                              (inr
                                (ref, m, (refl, (rw⁻¹ at_home got, found_at ref.key m v stands))))
                      ]
                    ]
              ]
        ]
      ]

  dispatch_target-Permitted :
      (n : Notification) (target : NotificationTarget)
      → trim_space "" ≡ ""
      → All IsPermitted (dispatch_target parse trim_space get_secret configured hr n target)
  unfolding dispatch_target IsPermitted IsOwnUrl
  dispatch_target-Permitted n target trims =
      let url = webhook_url_of parse trim_space get_secret configured hr target in
      let unmet =
        not (target.on_severity == "")
        && not (severity_met target.on_severity n.critical_count n.warning_count) in
      let invalid =
        not (target.type == "pagerduty")
        && not (validate_notification_url parse (http_allowed hr.annotations) url) in
      let safe : invalid ≡ false
          → (target.type ≡ "pagerduty") ⊎ IsReachable parse (http_allowed hr.annotations) url =
        λ h. elim (Bool-cases (target.type == "pagerduty")) [
          | inl pager ↦ inl ((string_eq.same_iff target.type "pagerduty").0 pager)
          | inr other ↦ inr (reachable parse _ url (ground (arith, h, other)))
        ] in
      elim (Bool-cases target.on_completion) [
        | inr silent ↦ rw (silent, dispatch_target) tt
        | inl asks ↦ elim (Bool-cases unmet) [
          | inl low ↦ rw (asks, low, dispatch_target) tt
          | inr met ↦ elim (Bool-cases (url == "")) [
            | inl empty ↦ rw (asks, met, empty, dispatch_target) tt
            | inr given ↦ elim (Bool-cases invalid) [
              | inl bad ↦ rw (asks, met, given, bad, dispatch_target) tt
              | inr good ↦ elim (Bool-cases (contains target.type notifier_types)) [
                | inr unknown ↦ rw (asks, met, given, good, unknown, dispatch_target) tt
                | inl known ↦
                    rw (asks, met, given, good, known, dispatch_target)
                      (
                        (
                          refl,
                          (
                            is_met target.on_severity n met,
                            (
                              (empty-nil url).0 given,
                              (own_url target trims ((empty-nil url).0 given), (known, safe good)),
                            ),
                          ),
                        ),
                        tt,
                      )
              ]
            ]
          ]
        ]
      ]

  -- A notification is sent only to a target that asks for it at completion, whose threshold the
  -- counts reach, and whose type is known; its URL is not empty and is the target's or stands in a
  -- secret of the request's own namespace; and unless the type is PagerDuty the URL has a host and
  -- is HTTPS, or HTTP where the request's annotation allows it.
  pub dispatch_notifications-Permitted :
      (n : Notification) (targets : List NotificationTarget)
      → trim_space "" ≡ ""
      → All IsPermitted (dispatch_notifications parse trim_space get_secret configured hr n targets)
  unfolding dispatch_notifications
  dispatch_notifications-Permitted n [] trims = tt
  dispatch_notifications-Permitted n (target ∷ targets) trims =
      All-append IsPermitted _ _ (dispatch_target-Permitted n target trims)
        (dispatch_notifications-Permitted n targets trims)
