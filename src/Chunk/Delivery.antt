-- ===== src/Chunk/Delivery.antt =====
-- Encoding every window of a source and pushing the frames into a decoder gives the source back.
use ptpsim.Prelude.{
  zero, suc, Result-cases, inl, inr, ℕ, zero, suc, ◌+◌, ◌*◌, ◌<◌, ◌≡◌, refl, List, [], ◌∷◌, Option,
  none, some, Result, ok, false, not, arith,
}
use ptpsim.Prelude.Try.{◌>>=◌, fail_if_pass}
use ptpsim.Chunk.Types.{
  source_sum16_le, ChunkError, layout, limit, Direction, source_sum16, sentinel,
}
use ptpsim.Chunk.Encode.{encode_window, is_window}
use ptpsim.Chunk.Decode.{new, push_all, finish, exceeds}
use ptpsim.Chunk.Transfer.{CanTransfer, le_header, full_windows, encode_ordinary, encode_final}
use ptpsim.Chunk.Steps.{taken, finished, IsAllowed, push_ordinary, push_final}

-- The frames from window i on: n ordinary ones, and the last one.
unfoldable pub encode_rest : (source : List ℕ) (size i n : ℕ) → Result ChunkError (List (List ℕ))
unfolding encode_window
encode_rest source size i zero = do
  frame ← encode_window source size sentinel sentinel (some source_sum16_le) le_header
  ok (frame ∷ [])
encode_rest source size i (suc n) = do
  frame ← encode_window source size i sentinel (some source_sum16_le) le_header
  frames ← encode_rest source size (i + 1) n
  ok (frame ∷ frames)

-- All frames of a source, in the order in which they are sent.
unfoldable pub encode_all : (source : List ℕ) (size : ℕ) → Result ChunkError (List (List ℕ))
unfolding encode_rest
encode_all source size = encode_rest source size 0 (full_windows source size)

-- Every frame goes from the sender to a new decoder, which is then asked for the source.
unfoldable pub transfer :
    Direction → (source : List ℕ) (size max : ℕ) → Option ℕ → Result ChunkError (List ℕ)
unfolding encode_all new push_all finish
transfer direction source size max expected = do
  frames ← encode_all source size
  start ← new direction size max expected
  end ← push_all start frames
  finish end

module _ {source : List ℕ} {size : ℕ} (c : CanTransfer source size) (direction : Direction)
    {max : ℕ} {expected : Option ℕ} (a : IsAllowed max expected source) where
  deliver_rest :
      (n i : ℕ)
      → i + n ≡ full_windows source size
      → (encode_rest source size i n >>= λ frames.
          push_all (taken direction size max expected source i) frames)
        ≡ ok (finished direction size max expected source)
  unfolding encode_rest push_all
  deliver_rest zero i h =
      let at : i ≡ full_windows source size = omega (arith, h) in
      rw (at, encode_final c, push_final c direction a) refl
  deliver_rest (suc n) i h =
      let below : i < full_windows source size = omega (arith, h) in
      let rest = deliver_rest n (i + 1) (omega (arith, h)) in
      elim (Result-cases (encode_rest source size (i + 1) n)) [
        | inl (frames, p) ↦
            rw (encode_ordinary c i below, p, push_ordinary c direction a i below) (rw p at rest)
        | inr (x, p) ↦ absurd (cc (rest, p))
      ]

deliver_all :
    {source : List ℕ} {size : ℕ} (c : CanTransfer source size) (direction : Direction) {max : ℕ}
    {expected : Option ℕ} (a : IsAllowed max expected source)
    → (encode_all source size >>= λ frames.
        push_all (taken direction size max expected source 0) frames)
      ≡ ok (finished direction size max expected source)
unfolding encode_all
deliver_all {source} {size} c direction a =
    deliver_rest c direction a (full_windows source size) 0 (omega arith)

exceeds_not :
    (max : ℕ) (expected : Option ℕ) (source : List ℕ)
    → IsAllowed max expected source
    → exceeds expected max ≡ false
exceeds_not max none source a = refl
exceeds_not max (some e) source a = ground (arith, a.within, a.as_expected e refl)

new-taken :
    (direction : Direction) {source : List ℕ} {size max : ℕ} {expected : Option ℕ}
    → CanTransfer source size
    → IsAllowed max expected source
    → new direction size max expected ≡ ok (taken direction size max expected source 0)
unfolding new source_sum16
new-taken direction {source} {size} {max} {expected} c a = rw (none_yet size) (
    fail_if_pass (not (is_window size)) layout (ground (arith, c.window))
      (fail_if_pass (exceeds expected max) limit (exceeds_not max expected source a) refl))
  where
    none_yet : (size : ℕ) → 0 * size ≡ 0
    none_yet size = omega arith

-- A source that is not empty, whose windows have between 2 and 2^32 - 3 bytes and number at most
-- 4096, arrives whole: encoding every window in order and pushing the frames into a new decoder, of
-- either direction, whose limit and expected size the source meets, succeeds and gives the source.
pub transfer_delivers :
    (direction : Direction) {source : List ℕ} {size max : ℕ} {expected : Option ℕ}
    → CanTransfer source size
    → IsAllowed max expected source
    → transfer direction source size max expected ≡ ok source
unfolding transfer
transfer_delivers direction {source} {size} {max} {expected} c a =
    let delivered = deliver_all c direction a in
    elim (Result-cases (encode_all source size)) [
      | inl (frames, p) ↦
          let pushed : push_all (taken direction size max expected source 0) frames
              ≡ ok (finished direction size max expected source) =
            rw p at delivered in
          rw (p, new-taken direction c a, pushed) refl
      | inr (x, p) ↦ absurd (cc (delivered, p))
    ]
