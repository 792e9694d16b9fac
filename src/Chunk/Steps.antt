-- ===== src/Chunk/Steps.antt =====
-- crates/protocol-primitives/src/chunk_frame.rs: `push` on what `encode_window` makes of a source.
use ptpsim.Prelude.{
  take_add, ℕ, ◌+◌, ◌-◌, ◌*◌, ◌%◌, ◌^◌, ◌≤◌, ◌<◌, ◌≡◌, refl, sym, ap, ◌∙◌, List, ◌++◌, Option, none,
  some, ok, Bool, true, false, length, take, drop, arith, length-append, take-append, drop-append,
  ne→==, length-take, length-drop, take-append, drop-append, take-append-drop, take_add,
}
use ptpsim.Chunk.Framed.{frame_of, push_frame, admit_pass}
use ptpsim.Wire.Bytes.{to_le_bytes, length-to_le_bytes, from_le_bytes-to_le_bytes}
use ptpsim.Chunk.Types.{Direction, source_sum16, sentinel}
use ptpsim.Chunk.Sum.{source_sum16-append, source_sum16-total}
use ptpsim.Chunk.Decode.{SourceSum16Decoder, split_body, push, wrong_size}
use ptpsim.Chunk.Transfer.{
  CanTransfer, full_windows, last_window, last_body, last_bounds, last_length, length-last_body,
  last_range, ordinary_fits, window_range,
}

-- A decoder that has taken the first i windows of the source.
abbrev pub taken :
    Direction → (size max : ℕ) → Option ℕ → (source : List ℕ) (i : ℕ) → SourceSum16Decoder
taken direction size max expected source i = record {
  direction = direction;
  window = size;
  max_source_size = max;
  expected_size = expected;
  source = take (i * size) source;
  sum = source_sum16 (take (i * size) source);
  windows = i;
  final_seen = false;
}

-- The whole source, with the last window seen.
abbrev pub finished : Direction → (size max : ℕ) → Option ℕ → (source : List ℕ) → SourceSum16Decoder
finished direction size max expected source = record {
  direction = direction;
  window = size;
  max_source_size = max;
  expected_size = expected;
  source = source;
  sum = source_sum16 source;
  windows = full_windows source size + 1;
  final_seen = true;
}

-- A limit and an expected size that the source meets.
pub record IsAllowed (max : ℕ) (expected : Option ℕ) (source : List ℕ) : Type 0 where
  pub within : length source ≤ max
  pub as_expected : (n : ℕ) → expected ≡ some n → n ≡ length source

size_never_wrong :
    (expected : Option ℕ) (source : List ℕ) (n : ℕ) (final : Bool)
    → ((e : ℕ) → expected ≡ some e → e ≡ length source)
    → n ≤ length source
    → (final ≡ true → n ≡ length source)
    → wrong_size expected n final ≡ false
size_never_wrong none source n final h within last = refl
size_never_wrong (some e) source n final h within last =
    let same : e ≡ length source = h e refl in ground (arith, last)

next_offset : (i size : ℕ) → (i + 1) * size ≡ i * size + size
next_offset i size = grind arith

-- Where `push` splits the last body.
split_last :
    (payload : List ℕ) (sum : ℕ)
    → (take (length (payload ++ to_le_bytes 2 sum) - 2) (payload ++ to_le_bytes 2 sum) ≡ payload)
      × (drop (length (payload ++ to_le_bytes 2 sum) - 2) (payload ++ to_le_bytes 2 sum)
          ≡ to_le_bytes 2 sum)
split_last payload sum =
    let at : length (payload ++ to_le_bytes 2 sum) - 2 ≡ length payload =
      omega (arith, length-append payload (to_le_bytes 2 sum), length-to_le_bytes 2 sum) in
    rw at (take-append payload (to_le_bytes 2 sum), drop-append payload (to_le_bytes 2 sum))

module _ {source : List ℕ} {size : ℕ} (c : CanTransfer source size) (direction : Direction)
    {max : ℕ} {expected : Option ℕ} (a : IsAllowed max expected source) where
  window_length :
      (i : ℕ) → i < full_windows source size → length (take size (drop (i * size) source)) ≡ size
  window_length i below = omega (
    arith,
    length-take size (drop (i * size) source),
    length-drop (i * size) source,
    ordinary_fits c i below,
  )

  taken_length : (i : ℕ) → i < full_windows source size → length (take (i * size) source) ≡ i * size
  taken_length i below = omega (arith, length-take (i * size) source, ordinary_fits c i below)

  whole_length :
      length (take (full_windows source size * size) source) ≡ full_windows source size * size
  whole_length = omega (arith, length-take (full_windows source size * size) source, last_bounds c)

  whole_sum :
      (source_sum16 (take (full_windows source size * size) source)
          + source_sum16 (last_window source size))
        % 2 ^ 16
      ≡ source_sum16 source
  whole_sum =
      sym (
        source_sum16-append (take (full_windows source size * size) source)
          (last_window source size))
      ∙ ap source_sum16 (take-append-drop (full_windows source size * size) source)

  pub push_ordinary :
      (i : ℕ)
      → i < full_windows source size
      → push
          (taken direction size max expected source i)
          (frame_of i (take size (drop (i * size) source)) (to_le_bytes 2 0))
        ≡ ok (taken direction size max expected source (i + 1))
  unfolding split_body
  push_ordinary i below =
      push_frame (taken direction size max expected source i) i (take size (drop (i * size) source))
        (to_le_bytes 2 0) refl (omega (arith, c.windows)) (omega (arith, c.windows))
        (omega (arith, window_length i below, window_range c))
        (omega (arith, window_length i below, window_range c)) (ground arith)
      ∙ rw (ne→== i sentinel (omega (arith, c.windows))) (
          admit_pass (taken direction size max expected source i) false
            (take size (drop (i * size) source)) 0 (omega (arith, window_length i below))
            (λ _. window_length i below) (omega (arith, window_length i below, window_range c))
            (omega (
              arith,
              a.within,
              ordinary_fits c i below,
              window_length i below,
              taken_length i below,
            ))
            (λ f. absurd (cc f))
            (size_never_wrong expected source _ false a.as_expected
              (omega (arith, ordinary_fits c i below, window_length i below, taken_length i below))
              (λ f. absurd (cc f)))
          ∙ ap ok (
              rw
                (
                  next_offset i size,
                  take_add (i * size) size source,
                  source_sum16-append (take (i * size) source) (take size (drop (i * size) source)),
                )
                refl))

  pub push_final :
      push
        (taken direction size max expected source (full_windows source size))
        (frame_of sentinel (last_body source size) (to_le_bytes 2 (source_sum16 source)))
      ≡ ok (finished direction size max expected source)
  unfolding split_body
  push_final =
      push_frame (taken direction size max expected source (full_windows source size)) sentinel
        (last_body source size) (to_le_bytes 2 (source_sum16 source)) refl c.windows (omega arith)
        (omega (arith, length-last_body c)) (omega (arith, length-last_body c, last_range c)) refl
      ∙ rw
          (
            (split_last (last_window source size) (source_sum16 source)).0,
            (split_last (last_window source size) (source_sum16 source)).1,
            from_le_bytes-to_le_bytes 2 (source_sum16 source)
                (omega (arith, source_sum16-total source)),
          )
          (admit_pass (taken direction size max expected source (full_windows source size)) true
              (last_window source size) (source_sum16 source)
              (omega (arith, last_length c, last_bounds c)) (λ f. absurd (cc f))
              (omega (arith, last_length c, last_bounds c))
              (omega (arith, a.within, last_length c, last_bounds c, whole_length)) (λ f. whole_sum)
              (size_never_wrong expected source _ true a.as_expected
                (omega (arith, last_length c, last_bounds c, whole_length))
                (λ f. omega (arith, last_length c, last_bounds c, whole_length)))
            ∙ ap ok
                (rw (whole_sum, take-append-drop (full_windows source size * size) source) refl))
