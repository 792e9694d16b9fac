-- ===== src/Codec/LiveView.antt =====
-- crates/protocol-primitives/src/liveview.rs: through-picture frames.
use ptpsim.Prelude.{
  ℕ, ◌+◌, ◌-◌, ◌^◌, ◌≤◌, ◌<◌, ◌≡◌, refl, ap, ◌∙◌, List, ◌++◌, Option, none, some, Bool, true, false,
  ◌&&◌, not, length, take, drop, ltb, leb, arith, if◌then◌else◌, Bool-cases, inl, inr,
  length-append, length-take, length-drop, take-append,
}
use ptpsim.Wire.Bytes.{to_le_bytes, from_le_bytes, from_le_bytes-to_le_bytes}

abbrev pub header_len : ℕ
header_len = 18

-- `u32::try_from(..).expect(..)`: `none` is the panic.
unfoldable pub frame_packet : (jpeg : List ℕ) (frame_counter : ℕ) → Option (List ℕ)
frame_packet jpeg frame_counter =
    let total_len = length jpeg + header_len in
    if ltb total_len (2 ^ 32)
    then some (
        to_le_bytes 4 total_len
        ++ (to_le_bytes 4 0
            ++ (to_le_bytes 4 frame_counter ++ (to_le_bytes 4 0 ++ (to_le_bytes 2 0 ++ jpeg)))))
    else none

-- `bytes.get(start..end)`
abbrev pub get_range : List ℕ → (start end : ℕ) → Option (List ℕ)
get_range bs start end =
    if leb start end && leb end (length bs) then some (take (end - start) (drop start bs)) else none

unfoldable pub parse_frame : List ℕ → Option (List ℕ)
parse_frame bytes =
    let total_len = from_le_bytes (take 4 bytes) in
    let offset_adjust = from_le_bytes (take 4 (drop 12 bytes)) in
    if ltb (length bytes) header_len
    then none
    else if not (leb header_len total_len && leb total_len (length bytes))
    then none
    else (if ltb (header_len + offset_adjust) (2 ^ 64)
        then get_range bytes (header_len + offset_adjust) total_len
        else none)

-- The packet in front of anything.
abbrev framed : (jpeg : List ℕ) (total_len frame_counter : ℕ) → List ℕ
framed jpeg total_len frame_counter =
    to_le_bytes 4 total_len
    ++ (to_le_bytes 4 0
        ++ (to_le_bytes 4 frame_counter ++ (to_le_bytes 4 0 ++ (to_le_bytes 2 0 ++ jpeg))))

module _ (jpeg : List ℕ) (total_len frame_counter : ℕ) (behind : List ℕ) where
  length-framed :
      length (framed jpeg total_len frame_counter ++ behind) ≡ 18 + length jpeg + length behind
  unfolding to_le_bytes
  length-framed = omega (arith, length-append jpeg behind)

  front_total :
      total_len < 2 ^ 32
      → from_le_bytes (take 4 (framed jpeg total_len frame_counter ++ behind)) ≡ total_len
  unfolding to_le_bytes
  front_total h = from_le_bytes-to_le_bytes 4 total_len h

  front_adjust :
      from_le_bytes (take 4 (drop 12 (framed jpeg total_len frame_counter ++ behind))) ≡ 0
  unfolding to_le_bytes from_le_bytes
  front_adjust = refl

  front_jpeg : drop 18 (framed jpeg total_len frame_counter ++ behind) ≡ jpeg ++ behind
  unfolding to_le_bytes
  front_jpeg = refl

-- A picture that fits into a packet is found in it again, whatever the frame's counter and whatever
-- bytes follow the packet in the buffer.
pub parse_frame-frame_packet :
    (jpeg : List ℕ) (frame_counter : ℕ) (behind : List ℕ)
    → length jpeg + 18 < 2 ^ 32
    → (packet : List ℕ) × (frame_packet jpeg frame_counter ≡ some packet)
      × (parse_frame (packet ++ behind) ≡ some jpeg)
unfolding frame_packet parse_frame
parse_frame-frame_packet jpeg frame_counter behind h =
    let total = front_total jpeg (length jpeg + 18) frame_counter behind h in
    let body : take (length jpeg + 18 - 18) (jpeg ++ behind) ≡ jpeg =
      ap (λ n. take n (jpeg ++ behind)) (cancel (length jpeg)) ∙ take-append jpeg behind in
    (
      framed jpeg (length jpeg + 18) frame_counter,
      ground arith,
      rw
          (
            total,
            front_adjust jpeg (length jpeg + 18) frame_counter behind,
            front_jpeg jpeg (length jpeg + 18) frame_counter behind,
            body,
            length-framed jpeg (length jpeg + 18) frame_counter behind,
          )
          (ground arith),
    )
  where
    cancel : (n : ℕ) → n + 18 - 18 ≡ n
    cancel n = omega arith

-- What a chain of guards that gives a result has passed.
passed_then :
    {x : List ℕ} (b : Bool) (o : Option (List ℕ)) → (if b then none else o) ≡ some x → o ≡ some x
passed_then true o e = absurd (cc e)
passed_then false o e = e

passed_else :
    {x : List ℕ} (b : Bool) (o : Option (List ℕ)) → (if b then o else none) ≡ some x → o ≡ some x
passed_else true o e = e
passed_else false o e = absurd (cc e)

get_range-length :
    (bs : List ℕ) (start end : ℕ) (xs : List ℕ)
    → get_range bs start end ≡ some xs
    → (start + length xs ≡ end) × (end ≤ length bs)
get_range-length bs start end xs h = elim (Bool-cases (leb start end && leb end (length bs))) [
  | inl p ↦
      let same : take (end - start) (drop start bs) ≡ xs = some_inj (rw p at h) in
      let inside : (start ≤ end) × (end ≤ length bs) = ground arith in
      (
        omega (
          arith,
          ap length same,
          length-take (end - start) (drop start bs),
          length-drop start bs,
          inside,
        ),
        inside.1,
      )
  | inr p ↦ absurd (cc (rw p at h))
]
  where
    some_inj : {a b : List ℕ} → some a ≡ some b → a ≡ b
    some_inj e = cc e

-- On any bytes: what the parser hands out is no longer than the declared length without the header, and
-- the buffer is at least as long as the prefix declares.
pub parse_frame_within :
    (bytes jpeg : List ℕ)
    → parse_frame bytes ≡ some jpeg
    → (length jpeg + 18 ≤ from_le_bytes (take 4 bytes))
      × (from_le_bytes (take 4 bytes) ≤ length bytes)
unfolding parse_frame
parse_frame_within bytes jpeg h =
    within bytes jpeg (from_le_bytes (take 4 bytes)) (from_le_bytes (take 4 (drop 12 bytes))) h
  where
    within :
        (bytes jpeg : List ℕ) (total adjust : ℕ)
        → (if ltb (length bytes) 18
            then none
            else if not (leb 18 total && leb total (length bytes))
            then none
            else (if ltb (18 + adjust) (2 ^ 64) then get_range bytes (18 + adjust) total else none))
          ≡ some jpeg
        → (length jpeg + 18 ≤ total) × (total ≤ length bytes)
    within bytes jpeg total adjust e =
        let got : get_range bytes (18 + adjust) total ≡ some jpeg =
          passed_else (ltb (18 + adjust) (2 ^ 64)) _ (
            passed_then (not (leb 18 total && leb total (length bytes))) _
              (passed_then (ltb (length bytes) 18) _ e)) in
        let r = get_range-length bytes (18 + adjust) total jpeg got in (omega (arith, r.0), r.1)
