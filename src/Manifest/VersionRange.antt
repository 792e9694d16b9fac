-- ===== src/Manifest/VersionRange.antt =====
-- crates/camera-config/src/version.rs: `in_range`, and how neighbouring ranges meet.
use ptpsim.Prelude.{
  ℕ, ◌≡◌, ◌≢◌, refl, sym, ap, ◌∙◌, List, some, Bool, true, false, ◌&&◌, ◌||◌, not, list_eq, arith,
  some_inj, list_eq→eq,
}
use ptpsim.Wire.Utf16.{Text}
use ptpsim.Manifest.Version.{
  Ordering, component, less, equal, greater, compare, parse, is_less, is_at_least, above_min,
  in_range,
}
use ptpsim.Manifest.VersionOrder.{SmallerAt, Outcome, compare-Outcome, before_trans, Outcome-unique}

abbrev pub IsVersion : Text → Type 0
IsVersion s = (ns : List ℕ) × (parse s ≡ some ns)

-- The order of two versions, with what it says of their components.
order :
    (x y : Text) (vx : IsVersion x) (vy : IsVersion y)
    → (o : Ordering) × (compare x y ≡ some o) × Outcome vx.0 vy.0 o
order x y vx vy = compare-Outcome x y vx.0 vy.0 vx.1 vy.1

first_of :
    (va vb : List ℕ) (o : Ordering)
    → is_less (some o) ≡ true
    → Outcome va vb o
    → (i : ℕ) × SmallerAt va vb i
unfolding Outcome
first_of va vb less h first = first
first_of va vb equal h same = ground (arith, h)
first_of va vb greater h last = ground (arith, h)

module _ (x y z : Text) (vx : IsVersion x) (vy : IsVersion y) (vz : IsVersion z) where
  less_trans :
      is_less (compare x y) ≡ true → compare y z ≢ some greater → is_less (compare x z) ≡ true
  less_trans h n =
      let xy = order x y vx vy in
      let yz = order y z vy vz in
      let xz = order x z vx vz in
      let first = first_of vx.0 vy.0 xy.0 (sym (ap is_less xy.1) ∙ h) xy.2 in
      let through =
        before_trans vx.0 vy.0 vz.0 yz.0 first yz.2 (λ e. n (yz.1 ∙ ap (λ o. some o) e)) in
      ap is_less (xz.1 ∙ ap (λ o. some o) (Outcome-unique vx.0 vz.0 xz.0 through xz.2))

module _ (x y : Text) (vx : IsVersion x) (vy : IsVersion y) where
  above_min_lem : above_min x (some y) ≡ not (is_less (compare x y))
  unfolding Outcome
  above_min_lem = let o = order x y vx vy in rw o.1 (at_least_of o.0 o.2)
    where
      unequal : (i : ℕ) × SmallerAt vx.0 vy.0 i → list_eq y x ≡ true → false ≡ true
      unequal (i, (agree, lt)) h =
          let same : vy.0 ≡ vx.0 = some_inj (sym vy.1 ∙ ap parse (list_eq→eq y x h) ∙ vx.1) in
          absurd (omega (arith, lt, ap (λ ns. component ns i) same))

      at_least_of :
          (o : Ordering)
          → Outcome vx.0 vy.0 o
          → (is_at_least (some o) || list_eq y x) ≡ not (is_less (some o))
      at_least_of less first = ground (arith, unequal first)
      at_least_of equal same = refl
      at_least_of greater last = refl

module _ (v lo hi : Text) (vv : IsVersion v) (vlo : IsVersion lo) where
  in_range_lem :
      in_range v (some lo) (some hi) ≡ (not (is_less (compare v lo)) && is_less (compare v hi))
  unfolding in_range
  in_range_lem = rw (in_range, vv.1, above_min_lem v lo vv vlo) refl

-- For versions with the second bound not before the first and the third not before the second: a
-- version is in the range from the first to the third exactly if it is in one of the two ranges that
-- meet at the second, and it is never in both.
pub in_range_split :
    (v lo mid hi : Text)
    → IsVersion v
    → IsVersion lo
    → IsVersion mid
    → IsVersion hi
    → compare lo mid ≢ some greater
    → compare mid hi ≢ some greater
    → (in_range v (some lo) (some hi)
        ≡ (in_range v (some lo) (some mid) || in_range v (some mid) (some hi)))
      × ((in_range v (some lo) (some mid) && in_range v (some mid) (some hi)) ≡ false)
in_range_split v lo mid hi vv vlo vmid vhi low high =
    let up = less_trans v lo mid vv vlo vmid in
    rw (in_range_lem v lo hi vv vlo, in_range_lem v lo mid vv vlo, in_range_lem v mid hi vv vmid)
      (meet (is_less (compare v lo)) (is_less (compare v mid)) (is_less (compare v hi))
        (λ h. up h low) (λ h. less_trans v mid hi vv vmid vhi h high))
  where
    meet :
        (a b c : Bool)
        → (a ≡ true → b ≡ true)
        → (b ≡ true → c ≡ true)
        → ((not a && c) ≡ ((not a && b) || (not b && c))) × (((not a && b) && (not b && c)) ≡ false)
    meet a b c f g = ground (arith, f, g)
