-- ===== src/Chunk/Invariant.antt =====
-- What holds of a decoder after any frames at all.
use ptpsim.Prelude.{
  ℕ, ◌+◌, ◌*◌, ◌%◌, ◌^◌, ◌≤◌, ◌<◌, ◌≡◌, List, [], ◌∷◌, ◌++◌, Option, ok, Bool, true, false, length,
  take, drop, arith, length-append, leb, ltb, not, ◌&&◌, ◌==◌, inl, inr, Result-cases,
}
use mathlib.Core.Path.{subst, sym}
use ptpsim.Prelude.Try.{fail_if_ok}
use ptpsim.Wire.Bytes.{from_le_bytes}
use ptpsim.Chunk.Types.{Direction, max_chunk_windows, sentinel, source_sum16}
use ptpsim.Chunk.Sum.{source_sum16-append}
use ptpsim.Chunk.Decode.{SourceSum16Decoder, new, admit, split_body, push, push_all}

pub record IsCoherent (d : SourceSum16Decoder) : Type 0 where
  pub sum_exact : d.sum ≡ source_sum16 d.source
  pub windows_bounded : d.windows ≤ 4096
  pub size_bounded : length d.source ≤ d.max_source_size
  pub whole_windows : d.final_seen ≡ false → length d.source ≡ d.windows * d.window

-- What an accepted window has passed.
record Admitted (d e : SourceSum16Decoder) (final : Bool) (payload : List ℕ) (observed : ℕ)
    : Type 0 where
  extended : e ≡ record d {
    source = d.source ++ payload;
    sum = (d.sum + source_sum16 payload) % 2 ^ 16;
    windows = d.windows + 1;
    final_seen = final;
  }
  fits : length d.source + length payload ≤ d.max_source_size
  full : final ≡ false → length payload ≡ d.window
  checked : final ≡ true → (d.sum + source_sum16 payload) % 2 ^ 16 ≡ observed

admit_ok :
    (d : SourceSum16Decoder) (final : Bool) (payload : List ℕ) (observed : ℕ) (behind : List ℕ)
    (e : SourceSum16Decoder)
    → admit d final payload observed behind ≡ ok e
    → Admitted d e final payload observed
unfolding admit
admit_ok d final payload observed behind e h = ground arith

admit-IsCoherent :
    (d : SourceSum16Decoder) (final : Bool) (payload : List ℕ) (observed : ℕ) (behind : List ℕ)
    (e : SourceSum16Decoder)
    → IsCoherent d
    → d.final_seen ≡ false
    → d.windows < 4096
    → admit d final payload observed behind ≡ ok e
    → IsCoherent e
admit-IsCoherent d final payload observed behind e inv open' room h =
    let a = admit_ok d final payload observed behind e h in
    subst IsCoherent (sym a.extended) (record {
      sum_exact = omega (arith, inv.sum_exact, source_sum16-append d.source payload);
      windows_bounded = omega arith;
      size_bounded = omega (arith, a.fits, length-append d.source payload);
      whole_windows = λ f. omega (
        arith,
        inv.whole_windows open',
        a.full f,
        length-append d.source payload,
        step_product d.windows d.window,
      );
    })
  where
    step_product : (n w : ℕ) → (n + 1) * w ≡ n * w + w
    step_product n w = grind arith

split_body-IsCoherent :
    (d : SourceSum16Decoder) (final : Bool) (body behind : List ℕ) (e : SourceSum16Decoder)
    → IsCoherent d
    → d.final_seen ≡ false
    → d.windows < 4096
    → split_body d final body behind ≡ ok e
    → IsCoherent e
unfolding split_body
split_body-IsCoherent d true body behind e inv open' room h =
    admit-IsCoherent d true _ _ behind e inv open' room h
split_body-IsCoherent d false body behind e inv open' room h =
    admit-IsCoherent d false _ _ behind e inv open' room h

pub push-IsCoherent :
    (d : SourceSum16Decoder) (raw : List ℕ) (e : SourceSum16Decoder)
    → IsCoherent d
    → push d raw ≡ ok e
    → IsCoherent e
unfolding push
push-IsCoherent d raw e inv h =
    let (open', h1) = fail_if_ok d.final_seen _ _ h in
    let (room, h2) = fail_if_ok (leb max_chunk_windows d.windows) _ _ h1 in
    let i = from_le_bytes (take 2 raw) in
    let declared = from_le_bytes (take 4 (drop 2 raw)) in
    let (_, h3) = fail_if_ok (ltb (length raw) 8) _ _ h2 in
    let (_, h4) = fail_if_ok (ltb declared 2) _ _ h3 in
    let (_, h5) = fail_if_ok (ltb (length raw) (declared + 6)) _ _ h4 in
    let (_, h6) = fail_if_ok (not (i == sentinel) && not (i == d.windows)) _ _ h5 in
    split_body-IsCoherent d (i == sentinel) _ _ e inv open' (ground arith) h6

new-IsCoherent :
    (direction : Direction) (window max : ℕ) (expected : Option ℕ) (d : SourceSum16Decoder)
    → new direction window max expected ≡ ok d
    → IsCoherent d
unfolding new source_sum16
new-IsCoherent direction window max expected d h = ground arith

push_all-IsCoherent :
    (frames : List (List ℕ)) (d e : SourceSum16Decoder)
    → IsCoherent d
    → push_all d frames ≡ ok e
    → IsCoherent e
unfolding push_all
push_all-IsCoherent [] d e inv h = subst IsCoherent (cc h) inv
push_all-IsCoherent (raw ∷ frames) d e inv h = elim (Result-cases (push d raw)) [
  | inl (d', p) ↦ push_all-IsCoherent frames d' e (push-IsCoherent d raw d' inv p) (rw p at h)
  | inr (x, p) ↦ absurd (cc (h, p))
]

-- After any frames at all that a decoder has accepted, its running checksum is that of the source
-- collected so far, the source is no longer than the limit, and at most 4096 windows were taken;
-- until the last window is seen the source is made of whole windows.
pub decoder-IsCoherent :
    (direction : Direction) (window max : ℕ) (expected : Option ℕ) (frames : List (List ℕ))
    (d e : SourceSum16Decoder)
    → new direction window max expected ≡ ok d
    → push_all d frames ≡ ok e
    → IsCoherent e
decoder-IsCoherent direction window max expected frames d e made pushed =
    push_all-IsCoherent frames d e (new-IsCoherent direction window max expected d made) pushed
