-- ===== src/Chunk/Transfer.antt =====
-- What `encode_window` produces under the checksum policy, for an ordinary window and for the last one.
use ptpsim.Prelude.{
  ℕ, ◌+◌, ◌-◌, ◌*◌, ◌/◌, ◌%◌, ◌^◌, ◌≤◌, ◌<◌, ◌≡◌, refl, sym, ap, ◌∙◌, List, ◌++◌, Option, some,
  Result, ok, true, false, ◌&&◌, ◌||◌, not, length, take, drop, ltb, leb, ◌==◌, list_eq,
  list_eq_refl, is_empty, arith, length-append, ne→==, lt→leb, append_assoc, length-take,
  length-drop, take-length_le,
}
use ptpsim.Chunk.Framed.{frame_of}
use native.Mathlib.Nat.{div-add-mod, add-zero, mod-lt}
use ptpsim.Prelude.Try.{◌>>◌, fail_if, fail_if_pass}
use ptpsim.Wire.Bytes.{to_le_bytes, length-to_le_bytes}
use ptpsim.Chunk.Types.{
  source_sum16_le, ChunkError, layout, source_sum16, sentinel, max_chunk_windows,
}
use ptpsim.Chunk.Encode.{encode_window, is_window, at_least_one, window_end}

-- The header that the checksum policy wants: index and declared length, little-endian.
abbrev pub le_header : ℕ → ℕ → Option (List ℕ)
le_header i declared = some (to_le_bytes 2 i ++ to_le_bytes 4 declared)

-- The number of whole windows in front of the last one.
abbrev pub full_windows : List ℕ → ℕ → ℕ
full_windows source size = (length source - 1) / size

-- What an encoder and a decoder of the same transfer need.
pub record CanTransfer (source : List ℕ) (size : ℕ) : Type 0 where
  pub window : is_window size ≡ true
  pub nonempty : 0 < length source
  pub addressable : length source < 2 ^ 64
  pub windows : full_windows source size < 4096

module _ {source : List ℕ} {size : ℕ} (c : CanTransfer source size) where
  pub window_range : (2 ≤ size) × (size ≤ 2 ^ 32 - 3)
  window_range = ground (arith, c.window)

  nonempty_source : is_empty source ≡ false
  nonempty_source = ground (arith, c.nonempty)

  width : at_least_one size ≡ size
  width = ground (arith, window_range)

-- Multiplying a bound on the number of windows by their size.
room_for : (i full size n : ℕ) → i < full → full * size ≤ n → i * size + size ≤ n
room_for i full size n below h = grind arith

full_fits : (n size : ℕ) → (n / size) * size ≤ n
full_fits n size = omega (arith, div-add-mod n size)

whole_end :
    (offset size n : ℕ) → offset + size ≤ n → n < 2 ^ 64 → window_end offset size n - offset ≡ size
whole_end offset size n fits small = omega arith

last_end :
    (offset size n : ℕ)
    → n ≤ offset + size
    → offset ≤ n
    → n < 2 ^ 64
    → window_end offset size n - offset ≡ n - offset
last_end offset size n over inside small = omega arith

-- The last guard of `encode_window`, and its result, with the header that the policy wants.
sealed :
    (i n : ℕ) (tail : List ℕ)
    → i < 2 ^ 16
    → n < 2 ^ 32
    → (fail_if
          (ltb (2 ^ 16 - 1) i
            || (ltb (2 ^ 32 - 1) n
                || not (
                    list_eq
                      (to_le_bytes 2 i ++ to_le_bytes 4 n)
                      (to_le_bytes 2 (i % 2 ^ 16) ++ to_le_bytes 4 (n % 2 ^ 32)))))
          layout
        >> ok ((to_le_bytes 2 i ++ to_le_bytes 4 n) ++ tail))
      ≡ ok (to_le_bytes 2 i ++ (to_le_bytes 4 n ++ tail))
sealed i n tail hi hn =
    let wrap_i : i % 2 ^ 16 ≡ i = omega arith in
    let wrap_n : n % 2 ^ 32 ≡ n = omega arith in
    rw (wrap_i, wrap_n, list_eq_refl (to_le_bytes 2 i ++ to_le_bytes 4 n))
      (fail_if_pass _ layout (ground arith)
        (ap ok (append_assoc (to_le_bytes 2 i) (to_le_bytes 4 n) tail)))

module _ {source : List ℕ} {size : ℕ} (c : CanTransfer source size) where
  policy : (not (is_window size) || not (sentinel == sentinel)) ≡ false
  policy = ground (arith, c.window)

  pub ordinary_fits : (i : ℕ) → i < full_windows source size → i * size + size ≤ length source
  ordinary_fits i below = omega (
    arith,
    room_for i (full_windows source size) size (length source - 1) below
        (full_fits (length source - 1) size),
  )

  pub encode_ordinary :
      (i : ℕ)
      → i < full_windows source size
      → encode_window source size i sentinel (some source_sum16_le) le_header
        ≡ ok (frame_of i (take size (drop (i * size) source)) (to_le_bytes 2 0))
  unfolding encode_window
  encode_ordinary i below =
      rw (width c, ne→== i sentinel (omega (arith, c.windows)))
        (fail_if_pass (not (is_window size) || not (sentinel == sentinel)) _ policy (
          fail_if_pass (is_empty source && true) _ (ground (arith, nonempty_source c)) (
            fail_if_pass (leb max_chunk_windows (full_windows source size)) _
              (ground (arith, c.windows))
              (rw
                (
                  lt→leb (full_windows source size) i below,
                  whole_end (i * size) size (length source) (ordinary_fits i below) c.addressable,
                  add-zero (length (take size (drop (i * size) source))),
                )
                (sealed i (length (take size (drop (i * size) source))) _ (omega (arith, c.windows))
                  (omega (arith, window_range c, length-take size (drop (i * size) source))))))))

-- The last window: what the whole windows in front of it leave.
abbrev pub last_window : List ℕ → ℕ → List ℕ
last_window source size = drop (full_windows source size * size) source

abbrev pub last_body : List ℕ → ℕ → List ℕ
last_body source size = last_window source size ++ to_le_bytes 2 (source_sum16 source)

division_bounds :
    (n size : ℕ)
    → 0 < n
    → 0 < size
    → ((n - 1) / size * size < n) × (n ≤ (n - 1) / size * size + size)
division_bounds n size some' wide = (
  omega (arith, div-add-mod (n - 1) size),
  omega (arith, div-add-mod (n - 1) size, mod-lt (n - 1) wide),
)

module _ {source : List ℕ} {size : ℕ} (c : CanTransfer source size) where
  pub last_bounds :
      (full_windows source size * size < length source)
      × (length source ≤ full_windows source size * size + size)
  last_bounds = division_bounds (length source) size c.nonempty (omega (arith, window_range c))

  pub last_length :
      length (last_window source size) ≡ length source - full_windows source size * size
  last_length = length-drop (full_windows source size * size) source

  pub last_range : length (last_window source size) + 2 < 2 ^ 32
  last_range = omega (arith, window_range c, last_bounds, last_length)

  pub length-last_body : length (last_body source size) ≡ length (last_window source size) + 2
  length-last_body = omega (
    arith,
    length-append (last_window source size) (to_le_bytes 2 (source_sum16 source)),
    length-to_le_bytes 2 (source_sum16 source),
  )

  last_frame :
      Path
        (Result ChunkError (List ℕ))
        (ok (
          to_le_bytes 2 sentinel
          ++ (to_le_bytes 4 (length (last_window source size) + 2)
              ++ (last_window source size
                  ++ (to_le_bytes 2 (source_sum16 source)
                      ++ to_le_bytes 2 (source_sum16 source))))))
        (ok (frame_of sentinel (last_body source size) (to_le_bytes 2 (source_sum16 source))))
  last_frame =
      rw
        (
          length-last_body,
          append_assoc (last_window source size) (to_le_bytes 2 (source_sum16 source))
              (to_le_bytes 2 (source_sum16 source)),
        )
        refl

  pub encode_final :
      encode_window source size sentinel sentinel (some source_sum16_le) le_header
      ≡ ok (frame_of sentinel (last_body source size) (to_le_bytes 2 (source_sum16 source)))
  unfolding encode_window
  encode_final = rw (width c) (
      fail_if_pass (not (is_window size) || not (sentinel == sentinel)) _ (policy c) (
        fail_if_pass (is_empty source && true) _ (ground (arith, nonempty_source c)) (
          fail_if_pass (leb max_chunk_windows (full_windows source size)) _
            (ground (arith, c.windows))
            (rw
              (
                last_end (full_windows source size * size) size (length source) last_bounds.1
                    (omega (arith, last_bounds.0)) c.addressable,
                sym last_length,
                take-length_le (length (last_window source size)) (last_window source size)
                    (omega arith),
              )
              (sealed sentinel (length (last_window source size) + 2) _ (omega arith) last_range
                ∙ last_frame)))))
