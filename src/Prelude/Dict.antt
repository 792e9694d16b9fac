-- ===== src/Prelude/Dict.antt =====
-- Maps as association lists: `get`, `insert` and `remove` of the standard library's `BTreeMap` and
-- `BTreeSet`, whose order nothing here reads.
use Prim.Native.Nat.{ℕ}
use Prim.Native.String.{String}
use mathlib.Core.Path.{◌≡◌, refl}
use mathlib.Core.Logic.{◌↔◌, inl, inr}
use mathlib.Core.Bool.{Bool, true, ◌&&◌}
use mathlib.Core.Option.{Option, none, some}
use mathlib.Core.List.{List, [], ◌∷◌}
use native.Mathlib.Omega.{arith}
use text.Mathlib.Text.{◌==◌ as str_eq}
use text.Mathlib.TextEquality.{eq_iff}
use ptpsim.Prelude.Tests.{◌==◌, ==_iff, if◌then◌else◌, Bool-cases}

pub record Key {ℓ} (K : Type ℓ) : Type ℓ where
  pub same : K → K → Bool
  pub same_iff : (j k : K) → (same j k ≡ true) ↔ (j ≡ k)

instance abbrev pub nat_key : Key ℕ
nat_key = record { same = ◌==◌; same_iff = ==_iff }

instance abbrev pub string_key : Key String
string_key = record { same = str_eq; same_iff = eq_iff }

pub same_self {ℓ} : {K : Type ℓ} ⦃e : Key K⦄ (k : K) → e.same k k ≡ true
same_self ⦃e⦄ k = (e.same_iff k k).1 refl

module _ {ℓ κ} {J : Type ℓ} {K : Type κ} ⦃a : Key J⦄ ⦃b : Key K⦄ where
  abbrev pub same_pair : J × K → J × K → Bool
  same_pair (i, j) (k, l) = a.same i k && b.same j l

  pub same_pair_iff : (p q : J × K) → (same_pair p q ≡ true) ↔ (p ≡ q)
  same_pair_iff (i, j) (k, l) = ground (arith, a.same_iff i k, b.same_iff j l)

  instance abbrev pub pair_key : Key (J × K)
  pair_key = record { same = same_pair; same_iff = same_pair_iff }

module _ {ℓ κ} {K : Type ℓ} {V : Type κ} ⦃e : Key K⦄ where
  unfoldable pub lookup : K → List (K × V) → Option V
  lookup k [] = none
  lookup k ((j, v) ∷ m) = let rest = lookup k m in if e.same k j then some v else rest

  -- `retain` of the keys that pass the test.
  unfoldable pub retain_keys : (K → Bool) → List (K × V) → List (K × V)
  retain_keys keep [] = []
  retain_keys keep ((j, v) ∷ m) =
      let rest = retain_keys keep m in if keep j then (j, v) ∷ rest else rest

  unfoldable pub remove : K → List (K × V) → List (K × V)
  remove k [] = []
  remove k ((j, v) ∷ m) = let rest = remove k m in if e.same k j then rest else (j, v) ∷ rest

  unfoldable pub insert : K → V → List (K × V) → List (K × V)
  insert k v [] = (k, v) ∷ []
  insert k v ((j, w) ∷ m) =
      let rest = insert k v m in if e.same k j then (k, v) ∷ m else (j, w) ∷ rest

  pub lookup-nil : (k : K) → lookup k [] ≡ none
  unfolding lookup
  lookup-nil k = refl

  pub lookup-insert :
      (j k : K) (v : V) (m : List (K × V))
      → lookup j (insert k v m) ≡ (if e.same j k then some v else lookup j m)
  unfolding lookup insert
  lookup-insert j k v [] = refl
  lookup-insert j k v ((i, w) ∷ m) =
      ground (arith, lookup-insert j k v m, e.same_iff j k, e.same_iff k i, e.same_iff j i)

  pub lookup-remove :
      (j k : K) (m : List (K × V))
      → lookup j (remove k m) ≡ (if e.same j k then none else lookup j m)
  unfolding lookup remove
  lookup-remove j k [] = ground arith
  lookup-remove j k ((i, w) ∷ m) =
      ground (arith, lookup-remove j k m, e.same_iff j k, e.same_iff k i, e.same_iff j i)

  pub lookup-retain_keys :
      (j : K) (keep : K → Bool) (m : List (K × V))
      → lookup j (retain_keys keep m) ≡ (if keep j then lookup j m else none)
  unfolding lookup retain_keys
  lookup-retain_keys j keep [] = ground arith
  lookup-retain_keys j keep ((i, w) ∷ m) = elim (Bool-cases (e.same j i)) [
    | inl p ↦
        rw ((e.same_iff j i).0 p) (ground (arith, lookup-retain_keys i keep m, e.same_iff i i))
    | inr p ↦ rw p (ground (arith, p, lookup-retain_keys j keep m))
  ]
