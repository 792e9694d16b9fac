-- ===== src/Chunk/Encode.antt =====
-- crates/protocol-primitives/src/chunk_frame.rs: `encode_window`. `usize` and `u64` have 64 bits, so
-- `usize::try_from(index)` does not fail.
use ptpsim.Prelude.{
  ℕ, ◌+◌, ◌-◌, ◌*◌, ◌/◌, ◌%◌, ◌^◌, List, ◌++◌, Option, none, some, Result, ok, err, Bool, true,
  false, ◌&&◌, ◌||◌, not, length, take, drop, ltb, leb, ◌==◌, if◌then◌else◌, list_eq, is_empty, min,
}
use ptpsim.Prelude.Try.{◌>>=◌, ◌>>◌, fail_if, ok_or}
use ptpsim.Wire.Bytes.{to_le_bytes}
use ptpsim.Chunk.Types.{
  ChunkChecksum, ChunkError, layout, empty_source, limit, index, header_encoding, max_chunk_windows,
  sentinel, source_sum16,
}

abbrev pub is_some {ℓ} : {A : Type ℓ} → Option A → Bool
is_some none = false
is_some (some a) = true

-- `(2..=u32::MAX as usize - 2).contains(&size)`
abbrev pub is_window : ℕ → Bool
is_window size = leb 2 size && leb size (2 ^ 32 - 1 - 2)

-- `size.max(1)`
abbrev pub at_least_one : ℕ → ℕ
at_least_one size = if ltb size 1 then 1 else size

-- `offset.saturating_add(size).min(source.len())`
abbrev pub window_end : (offset size total : ℕ) → ℕ
window_end offset size total = min (min (offset + size) (2 ^ 64 - 1)) total

abbrev pub chosen_ordinal : Bool → (full index : ℕ) → Result ChunkError ℕ
chosen_ordinal true full i = ok full
chosen_ordinal false full i = if leb full i then err index else ok i

-- The bytes behind the header.
abbrev pub checked_tail : Bool → Bool → List ℕ → ℕ → List ℕ
checked_tail false final payload sum = payload
checked_tail true true payload sum = payload ++ (to_le_bytes 2 sum ++ to_le_bytes 2 sum)
checked_tail true false payload sum = payload ++ to_le_bytes 2 sum

unfoldable pub encode_window :
    (source : List ℕ) (size i last : ℕ)
    → Option ChunkChecksum
    → (header : ℕ → ℕ → Option (List ℕ)) → Result ChunkError (List ℕ)
unfolding source_sum16
encode_window source size i last checksum header = do
  let checked = is_some checksum
  fail_if (checked && (not (is_window size) || not (last == sentinel))) layout
  fail_if (is_empty source && checked) empty_source
  let width = at_least_one size
  let full = (length source - 1) / width
  fail_if (leb max_chunk_windows full) limit
  let final = i == last
  ordinal ← chosen_ordinal final full i
  let offset = ordinal * width
  let payload = take (window_end offset width (length source) - offset) (drop offset source)
  let sum = if checked && final then source_sum16 source else 0
  let declared = length payload + (if checked && final then 2 else 0)
  frame ← ok_or (header i declared) header_encoding
  let expected = to_le_bytes 2 (i % 2 ^ 16) ++ to_le_bytes 4 (declared % 2 ^ 32)
  fail_if
      (checked
        && (ltb (2 ^ 16 - 1) i || (ltb (2 ^ 32 - 1) declared || not (list_eq frame expected))))
      layout
  ok (frame ++ checked_tail checked final payload sum)
