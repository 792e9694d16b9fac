-- ===== src/Fault/Set.antt =====
-- crates/camera-sim/src/fault.rs: `FaultSet`. A Rust method that changes the set returns the new set.
use ptpsim.Prelude.{
  ℕ, zero, suc, List, [], ◌∷◌, ◌++◌, map, Option, none, some, Result, ok, Bool, true, false, ◌&&◌,
  not, length, list_eq, ◌==◌, if◌then◌else◌, is_empty,
}
use ptpsim.Prelude.Try.{◌>>◌}
use ptpsim.Fault.Types.{
  FaultMutation, FaultSpec, FaultRule, FaultView, FaultApplication, AppliedFault, Refusal, kind,
  validate, wire_plan, saturating_add, armed, exhausted,
}

pub record FaultSet : Type 0 where
  pub next_id : ℕ
  pub rules : List FaultRule
  pub last_applied : Option FaultApplication
  pub applied_mutation : Option FaultMutation

abbrev pub default : FaultSet
default = record { next_id = 1; rules = []; last_applied = none; applied_mutation = none }

unfoldable pub try_insert : FaultSet → FaultSpec → Result Refusal (FaultSet × ℕ)
unfolding validate
try_insert s spec = do
  validate spec.mutation
  let id = s.next_id
  ok (
    record s {
      next_id = saturating_add 64 s.next_id 1;
      rules =
          s.rules
          ++ (record {
            id = id;
            selector = spec.selector;
            mutation = spec.mutation;
            seen = 0;
            applied = 0;
          }
              ∷ []);
    },
    id,
  )

-- `rules.retain(|rule| rule.id != id)`
abbrev pub retain : ℕ → List FaultRule → List FaultRule
retain id [] = []
retain id (rule ∷ rules) = let kept = retain id rules in if rule.id == id then kept else rule ∷ kept

abbrev pub names : Option FaultApplication → ℕ → Bool
names none id = false
names (some fault) id = fault.id == id

unfoldable pub remove : FaultSet → ℕ → FaultSet × Bool
remove s id =
    let rules = retain id s.rules in
    let removed = not (length s.rules == length rules) in
    (
      record s {
        rules = rules;
        last_applied = if removed && names s.last_applied id then none else s.last_applied;
      },
      removed,
    )

unfoldable pub clear : FaultSet → FaultSet
clear s = record s { rules = []; last_applied = none; applied_mutation = none }

abbrev pub no_rules : FaultSet → Bool
no_rules s = is_empty s.rules

abbrev pub view : FaultRule → FaultView
view rule = record {
  id = rule.id;
  selector = rule.selector;
  mutation = rule.mutation;
  seen = rule.seen;
  applied = rule.applied;
  exhausted = exhausted rule.selector rule.seen;
}

unfoldable pub list_rules : FaultSet → List FaultView
list_rules s = map view s.rules

-- The rule's operation, and its parameters where it has any, are those of the transaction.
abbrev pub selects : FaultRule → (code : ℕ) → List ℕ → Bool
selects rule code params = (rule.selector.operation == code) && same rule.selector.params
  where
    same : Option (List ℕ) → Bool
    same none = true
    same (some expected) = list_eq expected params

-- One round of the loop of `apply`: the rule's counter, and the rule that is selected so far.
abbrev pub visit :
    (matching : Bool) → (code : ℕ) → Option ℕ → (index : ℕ) → FaultRule → FaultRule × Option ℕ
visit false code selected index rule = (rule, selected)
visit true code none index rule = (
  record rule { seen = saturating_add 32 rule.seen 1 },
  if armed rule.selector rule.seen then some index else none,
)
visit true code (some chosen) index rule =
    (record rule { seen = saturating_add 32 rule.seen 1 }, some chosen)

abbrev pub scan :
    (code : ℕ) → List ℕ → Option ℕ → (index : ℕ) → List FaultRule → List FaultRule × Option ℕ
scan code params selected index [] = ([], selected)
scan code params selected index (rule ∷ rules) =
    let visited = visit (selects rule code params) code selected index rule in
    let rest = scan code params visited.1 (suc index) rules in (visited.0 ∷ rest.0, rest.1)

abbrev pub get_elem? {ℓ} : {A : Type ℓ} → List A → ℕ → Option A
get_elem? [] n = none
get_elem? (x ∷ xs) zero = some x
get_elem? (x ∷ xs) (suc n) = get_elem? xs n

abbrev pub set_elem {ℓ} : {A : Type ℓ} → List A → ℕ → A → List A
set_elem [] n a = []
set_elem (x ∷ xs) zero a = a ∷ xs
set_elem (x ∷ xs) (suc n) a = x ∷ set_elem xs n a

abbrev pub applied_of : FaultRule → AppliedFault
applied_of rule = record { id = rule.id; kind = kind rule.mutation; wire = wire_plan rule.mutation }

abbrev pub application_of : FaultRule → (code : ℕ) → List ℕ → FaultApplication
application_of rule code params = record {
  id = rule.id;
  operation = code;
  params = params;
  kind = kind rule.mutation;
}

-- What `apply` does with the rule that the loop selected.
abbrev pub use_rule :
    FaultSet → (code : ℕ) → List ℕ → ℕ → Option FaultRule → FaultSet × Option AppliedFault
use_rule s code params index none = (s, none)
use_rule s code params index (some rule) = (
  record s {
    rules = set_elem s.rules index (record rule { applied = saturating_add 32 rule.applied 1 });
    last_applied = some (application_of rule code params);
    applied_mutation = some rule.mutation;
  },
  some (applied_of rule),
)

abbrev pub use_selected : FaultSet → (code : ℕ) → List ℕ → Option ℕ → FaultSet × Option AppliedFault
use_selected s code params none = (s, none)
use_selected s code params (some index) = use_rule s code params index (get_elem? s.rules index)

unfoldable pub apply : FaultSet → (code : ℕ) → List ℕ → FaultSet × Option AppliedFault
apply s code params =
    let scanned = scan code params none 0 s.rules in
    use_selected (record s { rules = scanned.0; applied_mutation = none }) code params scanned.1

unfoldable pub take_applied_mutation : FaultSet → FaultSet × Option FaultMutation
take_applied_mutation s = (record s { applied_mutation = none }, s.applied_mutation)
