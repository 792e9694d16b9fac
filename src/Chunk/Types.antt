-- ===== src/Chunk/Types.antt =====
-- crates/protocol-primitives/src/chunk_frame.rs: the constants, the enumerations and the checksum.
use ptpsim.Prelude.{ℕ, ◌+◌, ◌%◌, ◌^◌, List}
use mathlib.Core.List.{foldl}

abbrev pub max_chunk_windows : ℕ
max_chunk_windows = 4096

abbrev pub sentinel : ℕ
sentinel = 65535

pub data ChunkChecksum : Type 0 where
  source_sum16_le : ChunkChecksum

pub data Direction : Type 0 where
  backup restore : Direction

pub data ChunkError : Type 0 where
  empty_source layout index limit header_encoding short_frame short_body truncated_body : ChunkError
  window_length sequence checksum trailer after_sentinel missing_sentinel size : ChunkError

-- `fold(0u16, |sum, byte| sum.wrapping_add(byte))`, from any start.
unfoldable pub sum_from : ℕ → List ℕ → ℕ
sum_from = foldl (λ sum byte. (sum + byte) % 2 ^ 16)

unfoldable pub source_sum16 : List ℕ → ℕ
unfolding sum_from
source_sum16 source = sum_from 0 source
