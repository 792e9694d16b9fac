-- ===== src/Manifest/VersionOrder.antt =====
-- crates/camera-config/src/version.rs: the first component in which two versions differ decides, and
-- neighbouring ranges do not overlap.
use mathlib.Core.Path.{subst}
use ptpsim.Prelude.{
  ℕ, zero, suc, ◌+◌, ◌≤◌, ◌<◌, ◌≡◌, ◌≢◌, refl, sym, ◌∙◌, ◌⊎◌, inl, inr, List, [], ◌∷◌, none, some,
  length, arith, Option-cases,
}
use ptpsim.Wire.Utf16.{Text}
use ptpsim.Manifest.Version.{
  Ordering, less, equal, greater, component, cmp, or_continue, compare_from, max, compare, parse,
}

-- The components before the i-th are the same, and the i-th is smaller in the first version. A
-- version has the component 0 behind its last.
abbrev pub SmallerAt : (va vb : List ℕ) → ℕ → Type 0
SmallerAt va vb i =
    ((j : ℕ) → j < i → component va j ≡ component vb j) × (component va i < component vb i)

-- What an order of two versions says of their components.
unfoldable pub Outcome : (va vb : List ℕ) → Ordering → Type 0
Outcome va vb less = (i : ℕ) × SmallerAt va vb i
Outcome va vb equal = (i : ℕ) → component va i ≡ component vb i
Outcome va vb greater = (i : ℕ) × SmallerAt vb va i

component_past : (ns : List ℕ) (i : ℕ) → length ns ≤ i → component ns i ≡ 0
unfolding component
component_past [] i h = refl
component_past (n ∷ ns) zero h = absurd (omega (arith, h))
component_past (n ∷ ns) (suc i) h = component_past ns i (omega (arith, h))

-- Agreement before the i-th component and at it.
agree_next :
    (va vb : List ℕ) (i : ℕ)
    → ((j : ℕ) → j < i → component va j ≡ component vb j)
    → component va i ≡ component vb i
    → (j : ℕ) → j < suc i
    → component va j ≡ component vb j
agree_next va vb i before at j h = elim (last h) [
  | inl earlier ↦ before j earlier
  | inr e ↦ rw e at
]
  where
    last : j < suc i → (j < i) ⊎ (j ≡ i)
    last h = ground (arith, h)

cmp-cases :
    (a b : ℕ)
    → ((cmp a b ≡ less) × (a < b))
      ⊎ (((cmp a b ≡ equal) × (a ≡ b)) ⊎ ((cmp a b ≡ greater) × (b < a)))
cmp-cases a b = ground arith

compare_from-Outcome :
    (left i : ℕ) (va vb : List ℕ)
    → length va ≤ left + i
    → length vb ≤ left + i
    → ((j : ℕ) → j < i → component va j ≡ component vb j)
    → Outcome va vb (compare_from left i va vb)
unfolding compare_from Outcome
compare_from-Outcome zero i va vb ha hb before = λ j. elim (beyond j) [
  | inl earlier ↦ before j earlier
  | inr h ↦
      component_past va j (omega (arith, ha, h)) ∙ sym (component_past vb j (omega (arith, hb, h)))
]
  where
    beyond : (j : ℕ) → (j < i) ⊎ (i ≤ j)
    beyond j = ground arith
compare_from-Outcome (suc left) i va vb ha hb before =
    elim (cmp-cases (component va i) (component vb i)) [
      | inl h ↦ subst continued (sym h.0) (i, (before, h.1))
      | inr (inl h) ↦ subst continued (sym h.0) (
          compare_from-Outcome left (suc i) va vb (omega (arith, ha)) (omega (arith, hb))
            (agree_next va vb i before h.1))
      | inr (inr h) ↦ subst continued (sym h.0) (i, ((λ j k. sym (before j k)), h.1))
    ]
  where
    continued : Ordering → Type 0
    continued o = Outcome va vb (or_continue o (compare_from left (suc i) va vb))

compare_second : (a b : Text) → parse b ≡ none → compare a b ≡ none
unfolding compare
compare_second a b n = elim (Option-cases (parse a)) [
  | inl m ↦ rw (m, compare) refl
  | inr m ↦ rw (m.1, n, compare) refl
]

pub compare-Outcome :
    (a b : Text) (va vb : List ℕ)
    → parse a ≡ some va
    → parse b ≡ some vb
    → (o : Ordering) × (compare a b ≡ some o) × Outcome va vb o
unfolding compare compare_from
compare-Outcome a b va vb ha hb = (
  compare_from (max (length va) (length vb)) 0 va vb,
  rw (ha, hb, compare) refl,
  compare_from-Outcome (max (length va) (length vb)) 0 va vb (ground arith) (ground arith)
      (λ j h. absurd (omega (arith, h))),
)

-- For any two texts: if one is not a version, they have no order; and two versions have one: the first
-- is less or greater as its component is smaller or larger at the first place where they differ, with
-- zeros behind the last component of each, and they are equal if they differ nowhere.
pub compare_lem :
    (a b : Text)
    → (((parse a ≡ none) ⊎ (parse b ≡ none)) × (compare a b ≡ none))
      ⊎ ((va : List ℕ) × (vb : List ℕ) × (o : Ordering) × (parse a ≡ some va)
          × (parse b ≡ some vb)
          × (compare a b ≡ some o)
          × Outcome va vb o)
unfolding compare
compare_lem a b = elim (Option-cases (parse b)) [
  | inl n ↦ inl (inr n, compare_second a b n)
  | inr y ↦ elim (Option-cases (parse a)) [
    | inl n ↦ inl (inl n, rw (n, compare) refl)
    | inr x ↦ let o = compare-Outcome a b x.0 y.0 x.1 y.1 in inr (x.0, y.0, o.0, x.1, y.1, o.1, o.2)
  ]
]

nat_cases : (m n : ℕ) → (m < n) ⊎ ((m ≡ n) ⊎ (n < m))
nat_cases m n = ground arith

-- What is before y and not behind z is before z.
pub before_trans :
    (vx vy vz : List ℕ) (o : Ordering)
    → (i : ℕ) × SmallerAt vx vy i
    → Outcome vy vz o
    → o ≢ greater
    → (i : ℕ) × SmallerAt vx vz i
unfolding Outcome
before_trans vx vy vz less (i, (agree, lt)) (k, (agree', lt')) n = elim (nat_cases i k) [
  | inl h ↦
      (i, ((λ j m. agree j m ∙ agree' j (omega (arith, h, m))), omega (arith, lt, agree' i h)))
  | inr (inl h) ↦ (
    i,
    (
      (λ j m. agree j m ∙ agree' j (omega (arith, h, m))),
      omega (arith, lt, subst (λ m. component vy m < component vz m) (sym h) lt'),
    ),
  )
  | inr (inr h) ↦
      (k, ((λ j m. agree j (omega (arith, h, m)) ∙ agree' j m), omega (arith, lt', agree k h)))
]
before_trans vx vy vz equal (i, (agree, lt)) same n =
    (i, ((λ j h. agree j h ∙ same j), subst (λ c. component vx i < c) (same i) lt))
before_trans vx vy vz greater first second n = absurd (n refl)

-- Only one order fits two versions, so that a first smaller component makes it `less`.
pub Outcome-unique :
    (va vb : List ℕ) (o : Ordering) → (i : ℕ) × SmallerAt va vb i → Outcome va vb o → o ≡ less
unfolding Outcome
Outcome-unique va vb less first h = refl
Outcome-unique va vb equal (i, (agree, lt)) h = absurd (omega (arith, lt, h i))
Outcome-unique va vb greater (i, (agree, lt)) (k, (agree', lt')) = absurd (elim (nat_cases i k) [
  | inl h ↦ omega (arith, lt, agree' i h)
  | inr (inl h) ↦ omega (arith, lt, subst (λ m. component vb m < component va m) (sym h) lt')
  | inr (inr h) ↦ omega (arith, lt', agree k h)
])
