-- ===== src/Tests/Faults.antt =====
-- crates/camera-sim/src/fault.rs at a concrete registry.
use ptpsim.Prelude.{◌≡◌, refl, [], ◌∷◌, none, some, ok, false, All, arith}
use ptpsim.Fault.Types.{FaultSelector, fail_response, FaultSpec, AppliedFault}
use ptpsim.Fault.Set.{FaultSet, default, try_insert, apply}
use ptpsim.Fault.Choice.{fires, first_firing, described, apply-described}
use ptpsim.Fault.Registry.{IsSound, Reachable, initially, next, inserting, applying}
use ptpsim.Fault.Preserved.{registry-IsSound}
use ptpsim.Fault.Lowest.{IsWinner, apply-lowest}

-- The second and third `GetObject` fail.
abbrev selector : FaultSelector
selector = record { operation = 0x1009; params = none; skip = 1; count = some 2 }

abbrev spec : FaultSpec
spec = record { selector = selector; mutation = fail_response 0x2002 }

abbrev one_rule : FaultSet
one_rule = record default {
  next_id = 2;
  rules =
      record { id = 1; selector = selector; mutation = fail_response 0x2002; seen = 0; applied = 0 }
      ∷ [];
}

one_rule-inserted : try_insert default spec ≡ ok (one_rule, 1)
unfolding try_insert
one_rule-inserted = refl

one_rule-Reachable : Reachable one_rule
one_rule-Reachable =
    next initially (inserting default one_rule spec 1 (omega arith) one_rule-inserted)

once_seen : FaultSet
once_seen = (apply one_rule 0x1009 []).0

once_seen-Reachable : Reachable once_seen
unfolding once_seen
once_seen-Reachable = next one_rule-Reachable (applying one_rule 0x1009 [])

registry-IsSound_example : IsSound once_seen
registry-IsSound_example = registry-IsSound once_seen once_seen-Reachable

apply-described_example :
    apply once_seen 0x1009 []
    ≡ described once_seen 0x1009 [] (first_firing 0x1009 [] once_seen.rules)
apply-described_example = apply-described once_seen 0x1009 []

apply-lowest_example :
    ((a : AppliedFault) → (apply once_seen 0x1009 []).1 ≡ some a → IsWinner once_seen 0x1009 [] a)
    × ((apply once_seen 0x1009 []).1 ≡ none
        → All (λ rule. fires 0x1009 [] rule ≡ false) once_seen.rules)
apply-lowest_example = apply-lowest once_seen once_seen-Reachable 0x1009 []
