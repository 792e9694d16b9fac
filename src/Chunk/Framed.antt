-- ===== src/Chunk/Framed.antt =====
-- A frame as the checksum policy lays it out, and what `push` does with one.
use ptpsim.Prelude.{
  ℕ, suc, ◌+◌, ◌-◌, ◌%◌, ◌^◌, ◌≤◌, ◌<◌, ◌≡◌, refl, ap, ◌∙◌, List, ◌++◌, ok, Bool, true, false, ◌&&◌,
  not, length, take, drop, ltb, leb, ◌==◌, list_eq_refl, arith, length-append, take-append,
  drop-append,
}
use ptpsim.Prelude.Try.{fail_if_pass}
use ptpsim.Wire.Bytes.{to_le_bytes, from_le_bytes, length-to_le_bytes, from_le_bytes-to_le_bytes}
use ptpsim.Chunk.Types.{source_sum16, sentinel, max_chunk_windows}
use ptpsim.Chunk.Decode.{SourceSum16Decoder, admit, split_body, push, wrong_size}

-- A frame: index, declared length, body, and what stands behind it.
abbrev pub frame_of : ℕ → List ℕ → List ℕ → List ℕ
frame_of i body behind = to_le_bytes 2 i ++ (to_le_bytes 4 (length body) ++ (body ++ behind))

pub length-frame_of :
    (i : ℕ) (body behind : List ℕ)
    → length (frame_of i body behind) ≡ 6 + length body + length behind
length-frame_of i body behind = omega (
  arith,
  length-append (to_le_bytes 2 i) (to_le_bytes 4 (length body) ++ (body ++ behind)),
  length-append (to_le_bytes 4 (length body)) (body ++ behind),
  length-append body behind,
  length-to_le_bytes 2 i,
  length-to_le_bytes 4 (length body),
)

module _ (i : ℕ) (body behind : List ℕ) where
  front_index : i < 2 ^ 16 → from_le_bytes (take 2 (frame_of i body behind)) ≡ i
  unfolding to_le_bytes
  front_index h = from_le_bytes-to_le_bytes 2 i h

  front_length :
      length body < 2 ^ 32 → from_le_bytes (take 4 (drop 2 (frame_of i body behind))) ≡ length body
  unfolding to_le_bytes
  front_length h = from_le_bytes-to_le_bytes 4 (length body) h

  front_body : take (length body + 6 - 6) (drop 6 (frame_of i body behind)) ≡ body
  unfolding to_le_bytes
  front_body = ap (λ n. take n (body ++ behind)) (cancel (length body)) ∙ take-append body behind
    where
      cancel : (n : ℕ) → n + 6 - 6 ≡ n
      cancel n = omega arith

  front_behind : drop (length body + 6) (frame_of i body behind) ≡ behind
  unfolding to_le_bytes
  front_behind =
      ap (λ n. drop n (frame_of i body behind)) (reorder (length body)) ∙ drop-append body behind
    where
      reorder : (n : ℕ) → n + 6 ≡ suc (suc (suc (suc (suc (suc n)))))
      reorder n = omega arith

-- The guards of `push` that look at the frame alone, and at the position in the sequence.
pub push_frame :
    (d : SourceSum16Decoder) (i : ℕ) (body behind : List ℕ)
    → d.final_seen ≡ false
    → d.windows < 4096
    → i < 2 ^ 16
    → 2 ≤ length body
    → length body < 2 ^ 32
    → (not (i == sentinel) && not (i == d.windows)) ≡ false
    → push d (frame_of i body behind) ≡ split_body d (i == sentinel) body behind
unfolding push
push_frame d i body behind open' room small two large order =
    rw
      (
        front_index i body behind small,
        front_length i body behind large,
        front_body i body behind,
        front_behind i body behind,
      )
      (fail_if_pass d.final_seen _ open' (
        fail_if_pass (leb max_chunk_windows d.windows) _ (ground arith) (
          fail_if_pass (ltb (length (frame_of i body behind)) 8) _
            (ground (arith, length-frame_of i body behind))
            (fail_if_pass (ltb (length body) 2) _ (ground arith) (
              fail_if_pass (ltb (length (frame_of i body behind)) (length body + 6)) _
                (ground (arith, length-frame_of i body behind))
                (fail_if_pass (not (i == sentinel) && not (i == d.windows)) _ order refl))))))

pub admit_pass :
    (d : SourceSum16Decoder) (final : Bool) (payload : List ℕ) (observed : ℕ)
    → length payload ≤ d.window
    → (final ≡ false → length payload ≡ d.window)
    → 0 < length payload
    → length d.source + length payload ≤ d.max_source_size
    → (final ≡ true → (d.sum + source_sum16 payload) % 2 ^ 16 ≡ observed)
    → wrong_size d.expected_size (length d.source + length payload) final ≡ false
    → admit d final payload observed (to_le_bytes 2 observed)
      ≡ ok (record d {
        source = d.source ++ payload;
        sum = (d.sum + source_sum16 payload) % 2 ^ 16;
        windows = d.windows + 1;
        final_seen = final;
      })
unfolding admit
admit_pass d final payload observed fits full some' room checked size =
    ground (arith, list_eq_refl (to_le_bytes 2 observed))
