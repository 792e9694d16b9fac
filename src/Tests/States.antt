-- ===== src/Tests/States.antt =====
-- crates/camera-sim/src/state.rs at concrete calls.
use ptpsim.Prelude.{
  ℕ, ◌≡◌, ◌⊎◌, ◌≢◌, refl, List, [], ◌∷◌, ◌++◌, none, some, true, false, ok, leb, if◌then◌else◌,
  arith, lookup, nat_key, All,
}
use ptpsim.Wire.Bytes.{pos}
use ptpsim.Dataset.Prop.{PropValue, DevicePropDesc, encode_prop_desc, decode_prop_desc}
use ptpsim.Manifest.Property.{
  DescriptorValue, Property, Properties, Descriptor, property, read_write,
}
use ptpsim.State.Types.{
  Phase, CameraState, QueuedEvent, initial, arm_effect, take_event, from_state_name, state_name,
  push_event, drain_events,
}
use ptpsim.State.Calls.{Call, arming, resolving, draining, cell, cell_run, run, run-cell, polls}
use ptpsim.State.Effects.{arm_effect-run}
use ptpsim.State.Events.{FirstAt, take_event_lem, push_all}
use ptpsim.State.Invariant.{IsValid, run-IsValid}
use ptpsim.State.Seeds.{from_manifest, build_prop_desc, describe}
use ptpsim.State.Described.{IsManifest}
use ptpsim.State.Composed.{
  IsTyped, AreTypedCalls, run-from_manifest-IsTyped, build_prop_desc-decode,
}

abbrev idle : CameraState
idle = initial ((0xd001, PropValue.u16 1) ∷ [])

-- Polled once, the other property in between, and once more.
abbrev two_polls : List Call
two_polls = resolving 0xd001 ∷ resolving 0xd002 ∷ draining ∷ resolving 0xd001 ∷ []

arm_effect-run_example :
    lookup 0xd001 (run (arm_effect idle 0xd001 (PropValue.u16 7) 2) two_polls).props
    ≡ (if leb 2 (polls 0xd001 two_polls) then some (PropValue.u16 7) else lookup 0xd001 idle.props)
arm_effect-run_example =
    arm_effect-run idle 0xd001 (PropValue.u16 7) 2 two_polls (tt, (tt, (tt, (tt, tt))))

run-cell_example :
    cell 0xd001 (run idle (arming 0xd002 (PropValue.u16 3) 0 ∷ resolving 0xd001 ∷ []))
    ≡ cell_run 0xd001 (cell 0xd001 idle) (arming 0xd002 (PropValue.u16 3) 0 ∷ resolving 0xd001 ∷ [])
run-cell_example = run-cell 0xd001 idle (arming 0xd002 (PropValue.u16 3) 0 ∷ resolving 0xd001 ∷ [])

run-IsValid_example : IsValid (run (initial []) (arming 0xd001 (PropValue.u16 7) 2 ∷ two_polls))
run-IsValid_example = run-IsValid [] (arming 0xd001 (PropValue.u16 7) 2 ∷ two_polls)

abbrev three_events : CameraState
three_events = push_all idle ((0xc004, []) ∷ (0xc005, 9 ∷ []) ∷ (0xc005, []) ∷ [])

take_event_lem_example :
    ((take_event three_events 0xc005 ≡ (three_events, false))
      × All (λ (x : QueuedEvent). x.code ≢ 0xc005) three_events.events)
    ⊎ ((before : List QueuedEvent) × (e : QueuedEvent) × (behind : List QueuedEvent) × FirstAt
          0xc005 before e behind three_events.events
        × (take_event three_events 0xc005
            ≡ (record three_events { events = before ++ behind }, true)))
take_event_lem_example = take_event_lem three_events 0xc005

-- The second of the three events is taken.
takes_first :
    (take_event three_events 0xc005).0.events
    ≡ record { code = 0xc004; params = [] } ∷ record { code = 0xc005; params = [] } ∷ []
unfolding take_event ptpsim.State.Types.remove_first ptpsim.State.Types.push_event_with_params
takes_first = refl

alias : from_state_name "live-view" ≡ some Phase.live_view
unfolding from_state_name
alias = refl

-- "0xd001", a property of three values.
abbrev white_balance : Property
white_balance = record {
  ptype = some "u16";
  access = some read_write;
  initial_value = none;
  descriptor = some (record {
    form = "enum";
    values = DescriptorValue.int (pos 2) ∷ DescriptorValue.int (pos 4) ∷ [];
  });
  payload = false;
}

abbrev one_property : Properties
one_property = (48 ∷ 120 ∷ 100 ∷ 48 ∷ 48 ∷ 49 ∷ [], white_balance) ∷ []

one_property-IsManifest : IsManifest one_property
unfolding property
one_property-IsManifest = (
  record { initial = tt; described = ((omega arith, (omega arith, tt)), omega arith) },
  λ c e. refl,
  tt,
)

no_calls-AreTyped : AreTypedCalls one_property (resolving 0xd001 ∷ [])
no_calls-AreTyped code p e = (tt, tt)

run-from_manifest-IsTyped_example :
    IsTyped one_property (run (from_manifest one_property) (resolving 0xd001 ∷ []))
run-from_manifest-IsTyped_example =
    run-from_manifest-IsTyped one_property (resolving 0xd001 ∷ []) one_property-IsManifest
      no_calls-AreTyped

abbrev described : DevicePropDesc
described = describe (run (from_manifest one_property) (resolving 0xd001 ∷ [])) 0xd001 white_balance

build_prop_desc-decode_example :
    (bytes : List ℕ) × (encode_prop_desc described (record { buf = [] })
      ≡ ok (record { buf = [] ++ bytes }))
    × (decode_prop_desc bytes ≡ ok described)
    × (described.code ≡ 0xd001)
unfolding build_prop_desc property ptpsim.Manifest.Property.key_is
    ptpsim.Manifest.HexCode.parse_hex_code ptpsim.Manifest.HexCode.from_hex
    ptpsim.Manifest.HexCode.strip_hex_prefix ptpsim.Manifest.HexCode.trim
    ptpsim.Manifest.HexCode.hex_digits ptpsim.Manifest.HexCode.hex_digit
build_prop_desc-decode_example =
    build_prop_desc-decode one_property (resolving 0xd001 ∷ []) 0xd001 described
      (record { buf = [] }) one_property-IsManifest no_calls-AreTyped refl
