-- ===== src/Setup/Version/Next.antt =====
-- `next` against the tables of known versions (src/setup/version.cpp).
use native.Mathlib.Nat.{le_refl}
use mathlib.Core.Bool.{true≢false}
use innoextract_wasm.Base.{
  ℕ, ◌^◌, ◌≤◌, ◌<◌, ◌≡◌, ◌⊎◌, inl, inr, refl, true, List, [], ◌∷◌, ◌++◌, Option, none, some, arith,
  All, All-append, All-mono, Any, Any-append_left, Any-append_right, Any-elim, Bool, false, ◌&&◌,
  ◌≢◌, ◌↔◌, sym, ap, ◌∙◌, subst, ltb, Bool-cases,
}
use innoextract_wasm.Setup.Version.Known.{
  Variant, KnownVersion, inno_version, legacy_versions, versions,
}
use innoextract_wasm.Setup.Version.{
  Version, bool_eq, same_variant, upper_bound, skip_variants, first_found, next,
}

-- In order of the versions, from a bound on.
abbrev IsSorted : ℕ → List KnownVersion → Type 0
IsSorted bound [] = Unit {0}
IsSorted bound (k ∷ ks) = (bound ≤ k.version) × IsSorted k.version ks

legacy_versions-IsSorted : IsSorted 0 legacy_versions
unfolding legacy_versions
legacy_versions-IsSorted = omega arith

versions-IsSorted : IsSorted (inno_version 1 2 10) versions
unfolding versions
versions-IsSorted = omega arith

bool_eq-same : (a b : Bool) → bool_eq a b ≡ true → a ≡ b
unfolding bool_eq
bool_eq-same true true h = refl
bool_eq-same true false h = sym h
bool_eq-same false true h = h
bool_eq-same false false h = refl

bool_eq_self : (a : Bool) → bool_eq a a ≡ true
unfolding bool_eq
bool_eq_self true = refl
bool_eq_self false = refl

and_both : (a b c : Bool) → a && b && c ≡ true → (a ≡ true) × (b ≡ true) × (c ≡ true)
and_both a b c h = ground arith

same_variant_iff : (s t : Variant) → (same_variant s t ≡ true) ↔ (s ≡ t)
unfolding same_variant
same_variant_iff s t = (
  λ h.
      let parts =
        and_both (bool_eq s.bits16 t.bits16) (bool_eq s.unicode t.unicode) (bool_eq s.isx t.isx)
          h in
      ap (λ (x : Bool). (record s { bits16 = x })) (bool_eq-same s.bits16 t.bits16 parts.0)
      ∙ ap (λ (x : Bool). (record s { bits16 = t.bits16; unicode = x }))
          (bool_eq-same s.unicode t.unicode parts.1)
      ∙ ap (λ (x : Bool). (record t { isx = x })) (bool_eq-same s.isx t.isx parts.2),
  λ e.
      subst (λ x. same_variant s x ≡ true) e
        (rw (bool_eq_self s.bits16, bool_eq_self s.unicode, bool_eq_self s.isx) refl),
)

-- A version of the variant that is above the value.
abbrev pub Above : Variant → ℕ → KnownVersion → Type 0
Above t value k = (k.variant ≡ t) × (value < k.version)

-- A version above the value with this number.
abbrev pub Found : Variant → ℕ → ℕ → KnownVersion → Type 0
Found t value n k = Above t value k × (k.version ≡ n)

-- A result is a version above the value, and lies below none that it could have been.
abbrev IsLeast : Variant → ℕ → List KnownVersion → Option ℕ → Type 0
IsLeast t value ks none = All (λ k. ¬ Above t value k) ks
IsLeast t value ks (some n) =
    Any (Found t value n) ks × All (λ k. Above t value k → n ≤ k.version) ks

sorted-All :
    (bound : ℕ) (ks : List KnownVersion) → IsSorted bound ks → All (λ k. bound ≤ k.version) ks
sorted-All bound [] h = tt
sorted-All bound (k ∷ ks) h = (
  h.0,
  All-mono (λ x. k.version ≤ x.version) ks (λ x p. omega (arith, h.0))
      (sorted-All k.version ks h.1),
)

IsLeast-cons :
    (t : Variant) (value : ℕ) (k : KnownVersion) (ks : List KnownVersion) (r : Option ℕ)
    → ¬ Above t value k
    → IsLeast t value ks r
    → IsLeast t value (k ∷ ks) r
IsLeast-cons t value k ks none out h = (out, h)
IsLeast-cons t value k ks (some n) out h = (inr h.0, (λ a. absurd (out a), h.1))

differs : (s t : Variant) → same_variant s t ≡ false → s ≢ t
differs s t h e = true≢false (sym ((same_variant_iff s t).1 e) ∙ h)

skip_variants-IsLeast :
    (t : Variant) (value bound : ℕ) (ks : List KnownVersion)
    → value < bound
    → IsSorted bound ks
    → IsLeast t value ks (skip_variants t ks)
unfolding skip_variants
skip_variants-IsLeast t value bound [] lt h = tt
skip_variants-IsLeast t value bound (k ∷ ks) lt h = elim (Bool-cases (same_variant k.variant t)) [
  | inl same ↦ rw same (
    inl (((same_variant_iff k.variant t).0 same, omega (arith, h.0)), refl),
    (
      λ a. omega arith,
      All-mono (λ x. k.version ≤ x.version) ks (λ x p a. p) (sorted-All k.version ks h.1),
    ),
  )
  | inr other ↦ rw other (
      IsLeast-cons t value k ks _ (λ a. differs k.variant t other a.0)
        (skip_variants-IsLeast t value k.version ks (omega (arith, h.0)) h.1))
]

search-IsLeast :
    (t : Variant) (value bound : ℕ) (ks : List KnownVersion)
    → IsSorted bound ks
    → IsLeast t value ks (skip_variants t (upper_bound value ks))
unfolding upper_bound
search-IsLeast t value bound [] h = unfold skip_variants in tt
search-IsLeast t value bound (k ∷ ks) h = elim (Bool-cases (ltb value k.version)) [
  | inl above ↦
      rw above
        (skip_variants-IsLeast t value k.version (k ∷ ks) (ground arith) (le_refl k.version, h.1))
  | inr below ↦ rw below (
      IsLeast-cons t value k ks _ (λ a. ground (arith, a.1))
        (search-IsLeast t value k.version ks h.1))
]

legacy_result :
    (t : Variant) (value n : ℕ)
    → skip_variants t (upper_bound value legacy_versions) ≡ some n
    → n ≡ inno_version 1 2 10
unfolding skip_variants upper_bound legacy_versions
legacy_result t value n h = ground arith

-- All known versions.
abbrev pub known_versions : List KnownVersion
known_versions = legacy_versions ++ versions

-- Zero, where no known version of the variant is above the value; or the least of those that are.
abbrev pub IsNext : Variant → ℕ → ℕ → Type 0
IsNext t value n =
    ((n ≡ 0) × All (λ k. ¬ Above t value k) known_versions)
    ⊎ (Any (Found t value n) known_versions
        × All (λ k. Above t value k → n ≤ k.version) known_versions)

first_found-IsNext :
    (t : Variant) (value : ℕ) (a b : Option ℕ)
    → ((n : ℕ) → a ≡ some n → n ≡ inno_version 1 2 10)
    → IsLeast t value legacy_versions a
    → IsLeast t value versions b
    → IsNext t value (first_found a b)
first_found-IsNext t value none none bound ha hb =
    inl (refl, All-append (λ k. ¬ Above t value k) legacy_versions versions ha hb)
first_found-IsNext t value none (some n) bound ha hb = inr (
  Any-append_right (Found t value n) legacy_versions versions hb.0,
  All-append (λ k. Above t value k → n ≤ k.version) legacy_versions versions
      (All-mono (λ k. ¬ Above t value k) legacy_versions (λ k out a. absurd (out a)) ha) hb.1,
)
first_found-IsNext t value (some n) b bound ha hb = inr (
  Any-append_left (Found t value n) legacy_versions versions ha.0,
  All-append (λ k. Above t value k → n ≤ k.version) legacy_versions versions ha.1
      (All-mono (λ k. inno_version 1 2 10 ≤ k.version) versions
        (λ k le a. omega (arith, le, bound n refl))
        (sorted-All (inno_version 1 2 10) versions versions-IsSorted)),
)

-- `next` is the least known version with the flags of the version that is above it, whichever table
-- has it; and 0 where there is none.
pub next-IsNext : (v : Version) → IsNext v.variant v.value (next v)
unfolding next
next-IsNext v =
    first_found-IsNext v.variant v.value _ _ (legacy_result v.variant v.value)
      (search-IsLeast v.variant v.value 0 legacy_versions legacy_versions-IsSorted)
      (search-IsLeast v.variant v.value (inno_version 1 2 10) versions versions-IsSorted)

pub next_above : (v : Version) → next v ≢ 0 → v.value < next v
next_above v h = elim (next-IsNext v) [
  | inl z ↦ absurd (h z.0)
  | inr found ↦
      Any-elim (Found v.variant v.value (next v)) known_versions (λ k (a, e). omega (arith, a.1, e))
        found.0
]

-- A result fits the 32 bits of a version.
abbrev IsSmall : Option ℕ → Type 0
IsSmall none = Unit {0}
IsSmall (some n) = n < 2 ^ 32

abbrev AreSmall : List KnownVersion → Type 0
AreSmall = All (λ k. k.version < 2 ^ 32)

skip_variants-IsSmall :
    (t : Variant) (ks : List KnownVersion) → AreSmall ks → IsSmall (skip_variants t ks)
unfolding skip_variants
skip_variants-IsSmall t [] h = tt
skip_variants-IsSmall t (k ∷ ks) h = elim (Bool-cases (same_variant k.variant t)) [
  | inl same ↦ rw same (h.0)
  | inr other ↦ rw other (skip_variants-IsSmall t ks h.1)
]

upper_bound-AreSmall :
    (value : ℕ) (ks : List KnownVersion) → AreSmall ks → AreSmall (upper_bound value ks)
unfolding upper_bound
upper_bound-AreSmall value [] h = tt
upper_bound-AreSmall value (k ∷ ks) h = elim (Bool-cases (ltb value k.version)) [
  | inl above ↦ rw above h
  | inr below ↦ rw below (upper_bound-AreSmall value ks h.1)
]

first_found-lt : (a b : Option ℕ) → IsSmall a → IsSmall b → first_found a b < 2 ^ 32
first_found-lt (some n) b p q = p
first_found-lt none (some n) p q = q
first_found-lt none none p q = omega arith

legacy_versions-AreSmall : AreSmall legacy_versions
unfolding legacy_versions
legacy_versions-AreSmall = omega arith

versions-AreSmall : AreSmall versions
unfolding versions
versions-AreSmall = omega arith

pub next-lt : (v : Version) → next v < 2 ^ 32
unfolding next
next-lt v =
    first_found-lt _ _
      (skip_variants-IsSmall v.variant _
        (upper_bound-AreSmall v.value legacy_versions legacy_versions-AreSmall))
      (skip_variants-IsSmall v.variant _ (upper_bound-AreSmall v.value versions versions-AreSmall))
