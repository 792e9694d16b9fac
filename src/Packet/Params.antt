-- ===== src/Packet/Params.antt =====
-- crates/ptp-core/src/container.rs: `remaining_params`, the parameters up to the end of the input.
use ptpsim.Prelude.{
  ℕ, zero, suc, ◌-◌, ◌*◌, ◌/◌, ◌%◌, ◌≡◌, refl, ap, sym, List, [], ◌∷◌, ◌++◌, ok, err, length, All,
  arith, leb, ◌==◌, if◌then◌else◌, append-nil, length-append, true, eq→==,
}
use ptpsim.Wire.Error.{unexpected_eof}
use ptpsim.Wire.Bytes.{to_le_bytes, length-to_le_bytes, IsU32}
use ptpsim.Wire.Reader.{Decoder, remaining, pure, ◌>>=◌, ◌>>◌, finish, u32}
use ptpsim.Wire.Codes.Read.{
  Ends, mid, remaining-mid, Ends-pure, Ends-bind, Ends-apply, Ends-bind_nil, u32-Codes, finish-Ends,
}
use ptpsim.Wire.Codes.Sequences.{concat_map}

-- `while r.remaining() >= 4 { params.push(r.u32()?); }`, in at most `fuel` rounds.
unfoldable pub params_loop : ℕ → Decoder (List ℕ)
params_loop zero r = ok ([], r)
params_loop (suc fuel) r =
    let more = (do p ← u32; ps ← params_loop fuel; pure (p ∷ ps)) r in
    if leb 4 (remaining r) then more else ok ([], r)

-- A round takes four bytes, so a quarter of the remaining bytes is fuel enough.
unfoldable pub remaining_params : Decoder (List ℕ)
unfolding params_loop
remaining_params r =
    if remaining r % 4 == 0
    then (do params ← params_loop (remaining r / 4); finish; pure params) r
    else err (unexpected_eof r.pos (4 - remaining r % 4))

abbrev pub param_bytes : List ℕ → List ℕ
param_bytes = concat_map (to_le_bytes 4)

pub length-param_bytes : (ps : List ℕ) → length (param_bytes ps) ≡ 4 * length ps
length-param_bytes [] = refl
length-param_bytes (p ∷ ps) = omega (
  arith,
  length-append (to_le_bytes 4 p) (param_bytes ps),
  length-to_le_bytes 4 p,
  length-param_bytes ps,
)

round :
    (fuel p : ℕ) (bs ps : List ℕ)
    → IsU32 p
    → Ends (params_loop fuel) bs ps
    → Ends (params_loop (suc fuel)) (to_le_bytes 4 p ++ bs) (p ∷ ps)
unfolding params_loop
round fuel p bs ps hp h = record {
  at = λ pre. rw (room pre) ((Ends-bind _ (u32-Codes p hp) (Ends-apply (λ r. p ∷ r) h)).at pre);
}
  where
    room : (pre : List ℕ) → leb 4 (remaining (mid pre (to_le_bytes 4 p ++ bs))) ≡ true
    room pre = ground (
      arith,
      remaining-mid pre (to_le_bytes 4 p ++ bs),
      length-append (to_le_bytes 4 p) bs,
      length-to_le_bytes 4 p,
    )

params_loop-zero : Ends (params_loop zero) [] []
unfolding params_loop
params_loop-zero = record { at = λ pre. ap (λ t. ok ([], mid t [])) (sym (append-nil pre)) }

params_loop-Ends : (ps : List ℕ) → All IsU32 ps → Ends (params_loop (length ps)) (param_bytes ps) ps
params_loop-Ends [] h = params_loop-zero
params_loop-Ends (p ∷ ps) h = round (length ps) p (param_bytes ps) ps h.0 (params_loop-Ends ps h.1)

pub remaining_params-Ends : (ps : List ℕ) → All IsU32 ps → Ends remaining_params (param_bytes ps) ps
unfolding remaining_params
remaining_params-Ends ps h = record {
  at = λ pre.
      rw (remaining-mid pre (param_bytes ps), length-param_bytes ps, aligned, quarter)
        ((Ends-bind_nil _ (params_loop-Ends ps h) (Ends-bind_nil _ finish-Ends (Ends-pure ps))).at
          pre);
}
  where
    aligned : (4 * length ps % 4 == 0) ≡ true
    aligned = eq→== _ _ (omega arith)

    quarter : 4 * length ps / 4 ≡ length ps
    quarter = omega arith
