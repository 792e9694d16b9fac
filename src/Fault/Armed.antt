-- ===== src/Fault/Armed.antt =====
-- crates/camera-sim/src/fault.rs: when a rule is armed and when it is exhausted, in plain arithmetic.
use Prim.Native.Nat.{max}
use ptpsim.Prelude.{
  ℕ, ◌+◌, ◌^◌, ◌≤◌, ◌<◌, ◌≡◌, ◌↔◌, some, true, false, leb, ltb, if◌then◌else◌, ◌-◌, inl, inr,
  Bool-cases, Option-cases, arith,
}
use ptpsim.Fault.Types.{FaultSelector, armed, exhausted, saturating_add}

-- The occurrences at which a selector's rule applies: from `skip` on, `count` of them.
unfoldable pub InWindow : FaultSelector → ℕ → Type 0
InWindow selector n =
    (selector.skip ≤ n) × ((c : ℕ) → selector.count ≡ some c → n < selector.skip + c)

-- A rule is armed at an occurrence exactly when `skip` matching ones came before it and, if it has a
-- count, fewer than `skip + count`.
pub armed-InWindow :
    (selector : FaultSelector) (n : ℕ) → (armed selector n ≡ true) ↔ InWindow selector n
unfolding armed InWindow
armed-InWindow selector n = (to, from)
  where
    to : armed selector n ≡ true → InWindow selector n
    to h = (ground arith, λ c e. let g = rw e at h in ground arith)

    from : InWindow selector n → armed selector n ≡ true
    from w = elim (Option-cases selector.count) [
      | inl e ↦ rw e (ground (arith, w.0))
      | inr (c, e) ↦ rw e (ground (arith, w.0, w.1 c e))
    ]

-- A rule with a positive count, whose window ends within 32 bits, is shown as exhausted exactly when it will
-- not be armed again at any later occurrence.
pub exhausted-never_armed :
    (selector : FaultSelector) (c seen : ℕ)
    → selector.count ≡ some c
    → selector.skip + c < 2 ^ 32
    → 0 < c
    → (exhausted selector seen ≡ true) ↔ ((n : ℕ) → seen ≤ n → armed selector n ≡ false)
unfolding armed exhausted
exhausted-never_armed selector c seen h fits some' = rw h (
  (λ past n later. ground arith),
  (λ never. elim (Bool-cases (leb (saturating_add 32 selector.skip c) seen)) [
    | inl p ↦ p
    | inr p ↦
        absurd
          (last seen selector.skip c fits some' (never (max seen selector.skip) (omega arith)) p)
  ]),
)
  where
    last :
        (seen skip c : ℕ)
        → skip + c < 2 ^ 32
        → 0 < c
        → (if ltb (max seen skip) skip then false else ltb (max seen skip - skip) c) ≡ false
        → leb (saturating_add 32 skip c) seen ≡ false
        → ⊥
    last seen skip c fits some' silent early = ground arith
