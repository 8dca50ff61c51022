-- ===== src/Causal/Dedup/Order.antt =====
-- internal/causal/correlator.go, `sortGroups`: the order in which groups are shown.
use kube_assist_operator.Prelude.{
  ◌≤◌, ◌≡◌, ◌⊎◌, ap, Bool, true, false, ◌&&◌, eqb, eqb_iff, String, string_eq, ◌==◌, List, [], ◌∷◌,
  arith, All, keep,
}
use text.Mathlib.TextEquality.{eq_iff}
use mathlib.Core.List.{Perm}
use kube_assist_operator.Prelude.Sort.{
  IsSorted, sort_stable-perm, sort_stable-IsSorted, sort_stable-keep,
}
use kube_assist_operator.Causal.Types.{CausalGroup, severity_priority}
use kube_assist_operator.Causal.Dedup.{more_severe, sort_groups}

more_severe_asym : (g h : CausalGroup) → more_severe g h ≡ true → more_severe h g ≡ false
more_severe_asym g h e = ground arith

more_severe_trans :
    (f g h : CausalGroup)
    → more_severe g f ≡ false
    → more_severe h g ≡ false
    → more_severe h f ≡ false
more_severe_trans f g h a b = ground arith

-- `g` may be shown before `h`: a critical group has only critical ones before it, a warning none
-- that is merely informative or of an unknown severity, and within a severity the confidence
-- does not rise.
abbrev pub MayPrecede : CausalGroup → CausalGroup → Type 0
MayPrecede g h =
    (h.severity ≡ "Critical" → g.severity ≡ "Critical")
    × ((h.severity ≡ "Warning" → (g.severity ≡ "Critical") ⊎ (g.severity ≡ "Warning"))
        × ((h.severity ≡ "Info"
              → (g.severity ≡ "Critical") ⊎ ((g.severity ≡ "Warning") ⊎ (g.severity ≡ "Info")))
            × (g.severity ≡ h.severity → h.confidence ≤ g.confidence)))

abbrev pub IsShown : List CausalGroup → Type 0
IsShown [] = Unit
IsShown (g ∷ gs) = All (MayPrecede g) gs × IsShown gs

priority_critical : (s : String) → 3 ≤ severity_priority s → s ≡ "Critical"
unfolding severity_priority
priority_critical s h = ground (arith, h, eq_iff s "Critical")

priority_warning : (s : String) → 2 ≤ severity_priority s → (s ≡ "Critical") ⊎ (s ≡ "Warning")
unfolding severity_priority
priority_warning s h = ground (arith, h, eq_iff s "Critical", eq_iff s "Warning")

priority_info :
    (s : String) → 1 ≤ severity_priority s → (s ≡ "Critical") ⊎ ((s ≡ "Warning") ⊎ (s ≡ "Info"))
unfolding severity_priority
priority_info s h = ground (arith, h, eq_iff s "Critical", eq_iff s "Warning", eq_iff s "Info")

priority_falls :
    (g h : CausalGroup)
    → more_severe h g ≡ false
    → severity_priority h.severity ≤ severity_priority g.severity
priority_falls g h e = ground (arith, e)

priority_at :
    (g h : CausalGroup) (s : String)
    → more_severe h g ≡ false
    → h.severity ≡ s
    → severity_priority s ≤ severity_priority g.severity
priority_at g h s e at = rw⁻¹ at (priority_falls g h e)

more_severe-MayPrecede : (g h : CausalGroup) → more_severe h g ≡ false → MayPrecede g h
unfolding severity_priority
more_severe-MayPrecede g h e = (
  λ at. priority_critical g.severity (priority_at g h "Critical" e at),
  (
    λ at. priority_warning g.severity (priority_at g h "Warning" e at),
    (
      λ at. priority_info g.severity (priority_at g h "Info" e at),
      λ same. ground (arith, e, ap severity_priority same),
    ),
  ),
)

each-MayPrecede :
    (g : CausalGroup) (gs : List CausalGroup)
    → All (λ h. more_severe h g ≡ false) gs
    → All (MayPrecede g) gs
each-MayPrecede g [] h = tt
each-MayPrecede g (x ∷ xs) h = (more_severe-MayPrecede g x h.0, each-MayPrecede g xs h.1)

is_shown : (gs : List CausalGroup) → IsSorted more_severe gs → IsShown gs
is_shown [] h = tt
is_shown (g ∷ gs) h = (each-MayPrecede g gs h.0, is_shown gs h.1)

-- The groups of a severity and a confidence.
abbrev pub alike : CausalGroup → CausalGroup → Bool
alike g h = h.severity == g.severity && eqb h.confidence g.confidence

alike_level : (g x y : CausalGroup) → alike g x ≡ true → alike g y ≡ true → more_severe y x ≡ false
unfolding severity_priority
alike_level g x y a b =
    let sx = eq_iff x.severity g.severity in
    let sy = eq_iff y.severity g.severity in
    ground
      (arith, a, b, sx, sy, eqb_iff x.confidence g.confidence, eqb_iff y.confidence g.confidence)

-- The groups are shown critical ones first, then warnings, then informative ones, then others;
-- within a severity the confidence does not rise; groups of one severity and confidence keep their order;
-- and they are the groups that were given.
pub sort_groups-IsShown :
    (groups : List CausalGroup)
    → IsShown (sort_groups groups)
      × (((g : CausalGroup) → keep (alike g) (sort_groups groups) ≡ keep (alike g) groups)
          × Perm (sort_groups groups) groups)
unfolding sort_groups
sort_groups-IsShown groups = (
  is_shown (sort_groups groups)
      (sort_stable-IsSorted more_severe more_severe_asym more_severe_trans groups),
  (
    λ g. sort_stable-keep more_severe (alike g) (alike_level g) groups,
    sort_stable-perm more_severe groups,
  ),
)
