-- ===== src/Packet/AnyParams.antt =====
-- crates/ptp-core/src/container.rs: `remaining_params` on any reader.
use ptpsim.Prelude.{
  ℕ, zero, suc, ◌+◌, ◌-◌, ◌*◌, ◌/◌, ◌%◌, ◌≤◌, ◌≡◌, ◌≢◌, refl, List, [], ◌∷◌, ok, err, length, take,
  drop, arith, leb, true, ne→==,
}
use native.Mathlib.Nat.{div-add-mod}
use ptpsim.Wire.Error.{unexpected_eof}
use ptpsim.Wire.Bytes.{from_le_bytes}
use ptpsim.Wire.Reader.{Reader, remaining, pure, ◌>>=◌, finish}
use ptpsim.Wire.Inversion.{u32_read}
use ptpsim.Wire.Sound.{IsValid}
use ptpsim.Packet.Params.{params_loop, remaining_params}

-- A reader at the end of its buffer.
abbrev pub at_end : Reader → Reader
at_end r = record r { pos = length r.buf }

params_loop-total :
    (n : ℕ) (r : Reader)
    → IsValid r
    → remaining r ≡ 4 * n
    → (ps : List ℕ) × (params_loop n r ≡ ok (ps, at_end r)) × (length ps ≡ n)
unfolding params_loop ◌>>=◌ pure
params_loop-total zero r v h =
    let e : r.pos ≡ length r.buf = omega (arith, v, h) in ([], rw e refl, refl)
params_loop-total (suc n) r v h =
    let room : 4 ≤ remaining r = omega (arith, h) in
    let rest =
      params_loop-total n (record r { pos = r.pos + 4 }) (omega (arith, v, h))
        (omega (arith, v, h)) in
    let big : leb 4 (remaining r) ≡ true = ground (arith, room) in
    (
      from_le_bytes (take 4 (drop r.pos r.buf)) ∷ rest.0,
      rw (big, u32_read r room, rest.1) refl,
      omega (arith, rest.2),
    )

-- On any reader within its buffer: if a whole number of 32-bit words is left, the parameters are read,
-- as many as there are words, and the reader stands at the end; if not, the error counts the bytes that
-- the last word lacks, at the position of the reader.
pub remaining_params-total :
    (r : Reader)
    → IsValid r
    → (remaining r % 4 ≡ 0
        → (ps : List ℕ) × (remaining_params r ≡ ok (ps, at_end r)) × (length ps ≡ remaining r / 4))
      × (remaining r % 4 ≢ 0
          → remaining_params r ≡ err (unexpected_eof r.pos (4 - remaining r % 4)))
unfolding remaining_params ◌>>=◌ pure finish
remaining_params-total r v = (whole, λ h. rw (ne→== (remaining r % 4) 0 h) refl)
  where
    used_up : (n : ℕ) → n - n ≡ 0
    used_up n = omega arith

    whole :
        remaining r % 4 ≡ 0
        → (ps : List ℕ) × (remaining_params r ≡ ok (ps, at_end r)) × (length ps ≡ remaining r / 4)
    whole h =
        let t =
          params_loop-total (remaining r / 4) r v (omega (arith, h, div-add-mod (remaining r) 4)) in
        (t.0, rw (h, t.1, used_up (length r.buf)) refl, t.2)
