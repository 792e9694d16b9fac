-- ===== src/Chunk/Decode.antt =====
-- crates/protocol-primitives/src/chunk_frame.rs: `SourceSum16Decoder`. Reserving memory is not
-- modelled: it is taken to succeed, and the source's size is bounded before it is tried.
use ptpsim.Prelude.{
  ℕ, ◌+◌, ◌-◌, ◌%◌, ◌^◌, List, [], ◌∷◌, ◌++◌, Option, none, some, Result, ok, Bool, true, false,
  ◌&&◌, ◌||◌, not, length, take, drop, ltb, leb, ◌==◌, list_eq, is_empty,
}
use ptpsim.Prelude.Try.{◌>>=◌, ◌>>◌, fail_if}
use ptpsim.Wire.Bytes.{to_le_bytes, from_le_bytes}
use ptpsim.Chunk.Types.{
  Direction, backup, restore, ChunkError, layout, limit, short_frame, short_body, truncated_body,
  window_length, sequence, checksum, trailer, after_sentinel, missing_sentinel, empty_source, size,
  max_chunk_windows, sentinel, source_sum16,
}
use ptpsim.Chunk.Encode.{is_window}

pub record SourceSum16Decoder : Type 0 where
  pub direction : Direction
  pub window : ℕ
  pub max_source_size : ℕ
  pub expected_size : Option ℕ
  pub source : List ℕ
  pub sum : ℕ
  pub windows : ℕ
  pub final_seen : Bool

-- `expected_size.is_some_and(|size| size > max_source_size)`
abbrev pub exceeds : Option ℕ → ℕ → Bool
exceeds none max = false
exceeds (some n) max = ltb max n

unfoldable pub new :
    Direction → (window max_source_size : ℕ) → Option ℕ → Result ChunkError SourceSum16Decoder
new direction window max_source_size expected_size = do
  fail_if (not (is_window window)) layout
  fail_if (exceeds expected_size max_source_size) limit
  ok (record {
    direction = direction;
    window = window;
    max_source_size = max_source_size;
    expected_size = expected_size;
    source = [];
    sum = 0;
    windows = 0;
    final_seen = false;
  })

-- `expected_size.is_some_and(|expected| size > expected || (final_window && size != expected))`
abbrev pub wrong_size : Option ℕ → ℕ → Bool → Bool
wrong_size none n final = false
wrong_size (some expected) n final = ltb expected n || (final && not (n == expected))

abbrev pub is_restore : Direction → Bool
is_restore backup = false
is_restore restore = true

-- The second half of `push`: the payload, the observed checksum and the bytes behind the body.
unfoldable pub admit :
    SourceSum16Decoder
    → (final : Bool) (payload : List ℕ) (observed : ℕ) (behind : List ℕ)
    → Result ChunkError SourceSum16Decoder
unfolding source_sum16
admit d final payload observed behind = do
  fail_if (ltb d.window (length payload) || (not final && not (length payload == d.window)))
      window_length
  let total = length d.source + length payload
  fail_if (ltb d.max_source_size total) limit
  let sum = (d.sum + source_sum16 payload) % 2 ^ 16
  fail_if (final && not (sum == observed)) checksum
  fail_if (is_restore d.direction && not (list_eq behind (to_le_bytes 2 observed))) trailer
  fail_if (is_empty payload) empty_source
  fail_if (wrong_size d.expected_size total final) size
  ok (record d {
    source = d.source ++ payload;
    sum = sum;
    windows = d.windows + 1;
    final_seen = final;
  })

-- `body.split_at(body.len() - 2)` on the last window.
unfoldable pub split_body :
    SourceSum16Decoder → Bool → List ℕ → List ℕ → Result ChunkError SourceSum16Decoder
unfolding admit
split_body d true body behind =
    admit d true (take (length body - 2) body) (from_le_bytes (drop (length body - 2) body)) behind
split_body d false body behind = admit d false body 0 behind

unfoldable pub push : SourceSum16Decoder → List ℕ → Result ChunkError SourceSum16Decoder
unfolding split_body
push d raw = do
  fail_if d.final_seen after_sentinel
  fail_if (leb max_chunk_windows d.windows) limit
  fail_if (ltb (length raw) 8) short_frame
  let i = from_le_bytes (take 2 raw)
  let declared = from_le_bytes (take 4 (drop 2 raw))
  fail_if (ltb declared 2) short_body
  let end = declared + 6
  fail_if (ltb (length raw) end) truncated_body
  let body = take (end - 6) (drop 6 raw)
  let final = i == sentinel
  fail_if (not final && not (i == d.windows)) sequence
  split_body d final body (drop end raw)

unfoldable pub finish : SourceSum16Decoder → Result ChunkError (List ℕ)
finish d = do fail_if (not d.final_seen) missing_sentinel; ok d.source

-- The transport hands the frames in one by one.
unfoldable pub push_all : SourceSum16Decoder → List (List ℕ) → Result ChunkError SourceSum16Decoder
unfolding push
push_all d [] = ok d
push_all d (raw ∷ frames) = push d raw >>= λ d'. push_all d' frames
