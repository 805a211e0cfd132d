-- ===== src/Findings/Dedupe.antt =====
-- What is left of a list of findings once repetitions are removed.
use logistics.Common.{
  ◌≡◌, refl, sym, subst, ap, inl, inr, List, [], ◌∷◌, map, String, In, IsDistinct, includes,
  string_eq, Bool-cases,
}
use logistics.Findings.{Finding, finding_key, dedupe_from, dedupe_findings}
use logistics.Changes.Scope.{unique_from, unique}
use logistics.Changes.Scope.Unique.{unique-In, unique-IsDistinct}

dedupe_from-key :
    (seen : List String) (fs : List Finding)
    → map finding_key (dedupe_from seen fs) ≡ unique_from seen (map finding_key fs)
unfolding dedupe_from unique_from
dedupe_from-key seen [] = refl
dedupe_from-key seen (f ∷ fs) = elim (Bool-cases (includes seen (finding_key f))) [
  | inl old ↦ rw (dedupe_from, unique_from, old) (dedupe_from-key seen fs)
  | inr new ↦
      rw (dedupe_from, unique_from, new)
        (ap (λ ks. finding_key f ∷ ks) (dedupe_from-key (finding_key f ∷ seen) fs))
]

dedupe_from-In :
    (seen : List String) (fs : List Finding) (f : Finding) → In f (dedupe_from seen fs) → In f fs
unfolding dedupe_from
dedupe_from-In seen [] f m = m
dedupe_from-In seen (g ∷ fs) f m = elim (Bool-cases (includes seen (finding_key g))) [
  | inl old ↦ inr (dedupe_from-In seen fs f (rw (old, dedupe_from) at m))
  | inr new ↦ elim (rw (new, dedupe_from) at m) [
    | inl e ↦ inl e
    | inr later ↦ inr (dedupe_from-In (finding_key g ∷ seen) fs f later)
  ]
]

-- The findings that are left are some of those given, no two of them have one key, and the key of each
-- that was given is still there.
pub dedupe_findings-IsDistinct :
    (fs : List Finding)
    → ((f : Finding) → In f (dedupe_findings fs) → In f fs)
      × IsDistinct (map finding_key (dedupe_findings fs))
      × ((k : String) → In k (map finding_key fs) → In k (map finding_key (dedupe_findings fs)))
unfolding dedupe_findings unique
dedupe_findings-IsDistinct fs =
    let same = dedupe_from-key [] fs in
    (
      dedupe_from-In [] fs,
      subst IsDistinct (sym same) (unique-IsDistinct (map finding_key fs)),
      λ k m. subst (In k) (sym same) ((unique-In (map finding_key fs) k).1 m),
    )
