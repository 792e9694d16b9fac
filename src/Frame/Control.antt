-- ===== src/Frame/Control.antt =====
-- The control container that crates/protocol-primitives/src/usb_ptp.rs and fuji_framing.rs share:
-- length, container type, code, transaction id, parameters. Both files write the same five steps.
use ptpsim.Prelude.{
  ℕ, ◌+◌, ◌^◌, ◌<◌, ◌≡◌, sym, ap, ◌∙◌, List, [], ◌∷◌, ◌++◌, length, arith, append_assoc, append-nil,
  length-append,
}
use ptpsim.Wire.Bytes.{to_le_bytes, length-to_le_bytes}
use ptpsim.Wire.Writer
use ptpsim.Wire.Writer.{Writer}
use ptpsim.Packet.Params.{param_bytes}
use ptpsim.Packet.Framing.{patched}
use ptpsim.Packet.Framing.Laws.{patched_front}

-- `for v in &p.params { w.u32(*v); }`
unfoldable pub put_params : List ℕ → Writer → Writer
put_params [] w = w
put_params (v ∷ vs) w = put_params vs (Writer.u32 v w)

unfoldable pub control : (ctype code transaction_id : ℕ) → List ℕ → Writer
unfolding put_params
control ctype code transaction_id params =
    put_params params
      (Writer.u32 transaction_id (Writer.u16 code (Writer.u16 ctype (Writer.u32 0 Writer.new))))

-- What stands behind the length.
abbrev pub control_tail : (ctype code transaction_id : ℕ) → List ℕ → List ℕ
control_tail ctype code transaction_id bs =
    to_le_bytes 2 ctype ++ (to_le_bytes 2 code ++ (to_le_bytes 4 transaction_id ++ bs))

abbrev pub container_bytes : (ctype code transaction_id : ℕ) → List ℕ → List ℕ
container_bytes ctype code transaction_id bs =
    to_le_bytes 4 (12 + length bs) ++ control_tail ctype code transaction_id bs

put_params_lem : (vs : List ℕ) (w : Writer) → (put_params vs w).buf ≡ w.buf ++ param_bytes vs
unfolding put_params Writer.u32
put_params_lem [] w = sym (append-nil w.buf)
put_params_lem (v ∷ vs) w =
    put_params_lem vs (Writer.u32 v w) ∙ append_assoc w.buf (to_le_bytes 4 v) (param_bytes vs)

control_lem :
    (ctype code tid : ℕ) (params : List ℕ)
    → (control ctype code tid params).buf
      ≡ to_le_bytes 4 0 ++ control_tail ctype code tid (param_bytes params)
unfolding control Writer.u32 Writer.u16 Writer.new
control_lem ctype code tid params = put_params_lem params _ ∙ simp append_assoc

pub length-control_tail :
    (ctype code tid : ℕ) (bs : List ℕ) → length (control_tail ctype code tid bs) ≡ 8 + length bs
length-control_tail ctype code tid bs = omega (
  arith,
  length-append (to_le_bytes 2 ctype) (to_le_bytes 2 code ++ (to_le_bytes 4 tid ++ bs)),
  length-append (to_le_bytes 2 code) (to_le_bytes 4 tid ++ bs),
  length-append (to_le_bytes 4 tid) bs,
  length-to_le_bytes 2 ctype,
  length-to_le_bytes 2 code,
  length-to_le_bytes 4 tid,
)

pub patched-control :
    (ctype code tid : ℕ) (params : List ℕ)
    → 12 + length (param_bytes params) < 2 ^ 32
    → patched (control ctype code tid params) ≡ container_bytes ctype code tid (param_bytes params)
patched-control ctype code tid params small =
    ap (λ t. patched (record { buf = t })) (control_lem ctype code tid params)
    ∙ patched_front (12 + length (param_bytes params))
        (control_tail ctype code tid (param_bytes params))
        (omega (arith, length-control_tail ctype code tid (param_bytes params))) small
