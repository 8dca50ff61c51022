-- ===== src/Api/Errors.antt =====
-- The `field.Error` values of the webhooks under api/v1alpha1, by the functions of the library that
-- make them; a path is written out, and the lists of supported values and the details are left out
-- where they are constant.
use kube_assist_operator.Prelude.{
  ℕ, ◌≡◌, ◌≢◌, ◌↔◌, ◌⊎◌, inl, inr, arith, refl, Bool, Bool-cases, not, ◌&&◌, string_eq, ◌==◌, true,
  false, Option, none, some, List, [], ◌∷◌, ◌++◌, String, if◌then◌else◌,
}
use kube_assist_operator.Prelude.Texts.{concat}
use kube_assist_operator.Prelude.Numbers.{ℤ, pos, negsuc, show, show_int}

pub data FieldError : Type 0 where
  required : (path detail : String) → FieldError
  not_supported : (path value : String) → FieldError
  invalid : (path value detail : String) → FieldError
  forbidden : (path detail : String) → FieldError
  duplicate : (path value : String) → FieldError
  internal_error : (path detail : String) → FieldError

-- `path.Index(i)`
unfoldable pub index : String → ℕ → String
unfolding concat
index path i = concat (path ∷ "[" ∷ show i ∷ "]" ∷ [])

-- `if test { allErrs = append(allErrs, e) }`
unfoldable pub error_if : Bool → FieldError → List FieldError
error_if b e = if b then e ∷ [] else []

-- `ttlSecondsAfterFinished must be >= 0`
unfoldable pub ttl_errors : Option ℤ → List FieldError
ttl_errors none = []
ttl_errors (some (pos n)) = []
ttl_errors (some (negsuc n)) =
    invalid "spec.ttlSecondsAfterFinished" (show_int (negsuc n)) "must be >= 0" ∷ []

-- The lifetime is not set, or not below zero.
abbrev pub IsLifetime : Option ℤ → Type 0
IsLifetime ttl = (ttl ≡ none) ⊎ ((n : ℕ) × (ttl ≡ some (pos n)))

-- A check that leaves no error when `P` holds, before one that leaves none when `Q` does.
pub append-nil :
    {A P Q : Type 0} (xs ys : List A) → (xs ≡ []) ↔ P → (ys ≡ []) ↔ Q → (xs ++ ys ≡ []) ↔ (P × Q)
append-nil [] ys p q = (λ h. (p.0 refl, q.0 h), λ h. q.1 h.1)
append-nil (x ∷ xs) ys p q = (λ h. ground (arith, h), λ h. ground (arith, p.1 h.0))

pub error_if-nil :
    {P : Type 0} (b : Bool) (e : FieldError) → (b ≡ false) ↔ P → (error_if b e ≡ []) ↔ P
unfolding error_if
error_if-nil true e p = (λ h. ground (arith, h), λ h. ground (arith, p.1 h))
error_if-nil false e p = (λ h. p.0 refl, λ h. refl)

pub ttl_errors-nil : (ttl : Option ℤ) → (ttl_errors ttl ≡ []) ↔ IsLifetime ttl
unfolding ttl_errors
ttl_errors-nil none = (λ h. inl refl, λ h. refl)
ttl_errors-nil (some (pos n)) = (λ h. inr (n, refl), λ h. refl)
ttl_errors-nil (some (negsuc n)) = (
  λ h. ground (arith, h),
  λ h. elim h [ inl e ↦ absurd (ground (arith, e)) | inr (m, e) ↦ absurd (ground (arith, e)) ],
)

pub empty-nil : (value : String) → ((value == "") ≡ false) ↔ (value ≢ "")
empty-nil value = (
  λ h e. ground (arith, h, (string_eq.same_iff value "").1 e),
  λ h. elim (Bool-cases (value == "")) [
    | inl same ↦ absurd (h ((string_eq.same_iff value "").0 same))
    | inr other ↦ other
  ],
)

pub changed-nil : (new old : String) → (not (new == old) ≡ false) ↔ (new ≡ old)
changed-nil new old = (
  λ h. (string_eq.same_iff new old).0 (ground (arith, h)),
  λ h. ground (arith, (string_eq.same_iff new old).1 h),
)

-- A guard on a text that is set and not supported.
pub unsupported-nil :
    (value : String) (supported : Bool)
    → ((not (value == "") && not supported) ≡ false) ↔ ((value ≡ "") ⊎ (supported ≡ true))
unsupported-nil value supported = elim (Bool-cases (value == "")) [
  | inl empty ↦ (λ h. inl ((string_eq.same_iff value "").0 empty), λ h. rw empty refl)
  | inr set ↦ (
    λ h. inr (ground (arith, h, set)),
    λ h. elim h [
      | inl e ↦ absurd (ground (arith, set, (string_eq.same_iff value "").1 e))
      | inr found ↦ rw (set, found) refl
    ],
  )
]
