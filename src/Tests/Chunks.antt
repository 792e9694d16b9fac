-- ===== src/Tests/Chunks.antt =====
-- crates/protocol-primitives/src/chunk_frame.rs at a concrete source.
use ptpsim.Prelude.{ℕ, ◌≡◌, refl, List, [], ◌∷◌, none, some, ok, false, arith}
use ptpsim.Chunk.Types.{backup, restore}
use ptpsim.Chunk.Decode.{SourceSum16Decoder, new, push_all}
use ptpsim.Chunk.Invariant.{IsCoherent, decoder-IsCoherent}
use ptpsim.Chunk.Transfer.{CanTransfer}
use ptpsim.Chunk.Steps.{IsAllowed}
use ptpsim.Chunk.Delivery.{transfer, transfer_delivers}

abbrev source : List ℕ
source = 200 ∷ 201 ∷ 202 ∷ 203 ∷ 204 ∷ []

source-CanTransfer : CanTransfer source 2
source-CanTransfer = record {
  window = refl;
  nonempty = omega arith;
  addressable = omega arith;
  windows = omega arith;
}

source-IsAllowed : IsAllowed 16 (some 5) source
source-IsAllowed = record { within = omega arith; as_expected = λ n e. five n e }
  where
    five : (n : ℕ) → some 5 ≡ some n → n ≡ 5
    five n e = cc e

transfer_delivers_example : transfer restore source 2 16 (some 5) ≡ ok source
transfer_delivers_example = transfer_delivers restore source-CanTransfer source-IsAllowed

-- The first window of two bytes.
abbrev first_frame : List ℕ
first_frame = 0 ∷ 0 ∷ 2 ∷ 0 ∷ 0 ∷ 0 ∷ 200 ∷ 201 ∷ 0 ∷ 0 ∷ []

abbrev empty_decoder : SourceSum16Decoder
empty_decoder = record {
  direction = backup;
  window = 2;
  max_source_size = 16;
  expected_size = none;
  source = [];
  sum = 0;
  windows = 0;
  final_seen = false;
}

abbrev one_window : SourceSum16Decoder
one_window = record empty_decoder { source = 200 ∷ 201 ∷ []; sum = 401; windows = 1 }

empty_decoder-new : new backup 2 16 none ≡ ok empty_decoder
unfolding new
empty_decoder-new = refl

one_window-pushed : push_all empty_decoder (first_frame ∷ []) ≡ ok one_window
unfolding push_all ptpsim.Wire.Bytes.from_le_bytes
one_window-pushed = refl

decoder-IsCoherent_example : IsCoherent one_window
decoder-IsCoherent_example =
    decoder-IsCoherent backup 2 16 none (first_frame ∷ []) empty_decoder one_window
      empty_decoder-new one_window-pushed
