-- ===== src/Frame/RoundTrip.antt =====
-- Round trips of the USB containers and of the Fuji compressed frames.
use ptpsim.Prelude.{
  ℕ, ◌+◌, ◌%◌, ◌^◌, ◌<◌, ◌≡◌, refl, ap, ◌∙◌, List, [], ◌++◌, length, some, ok, arith, Bool, true,
  false, length-append, eq→==, lt→ltb, append_assoc,
}
use ptpsim.Wire.Bytes.{IsU16, IsU32, to_le_bytes, length-to_le_bytes}
use ptpsim.Wire.Writer
use ptpsim.Wire.Codes.Read.{
  Ends, Ends-pure, Ends-bind, Ends-bind_nil, Ends-apply, u16-Codes, u32-Codes, rest-Ends,
  finish-Ends, run-Ends,
}
use ptpsim.Packet.Types.{PtpIpPacket, IsWire}
use ptpsim.Packet.Params.{param_bytes, remaining_params-Ends}
use ptpsim.Frame.Control.{control_tail, container_bytes, length-control_tail, patched-control}
use ptpsim.Frame.Usb
use ptpsim.Frame.Fuji

pub length-container_bytes :
    (ctype code tid : ℕ) (bs : List ℕ) → length (container_bytes ctype code tid bs) ≡ 12 + length bs
length-container_bytes ctype code tid bs = omega (
  arith,
  length-append (to_le_bytes 4 (12 + length bs)) (control_tail ctype code tid bs),
  length-to_le_bytes 4 (12 + length bs),
  length-control_tail ctype code tid bs,
)

-- A decoded request has no data phase of its own; the decoders fill in 1.
abbrev pub with_default_phase : PtpIpPacket → PtpIpPacket
with_default_phase (PtpIpPacket.operation_request p) =
    PtpIpPacket.operation_request (record p { data_phase_info = 1 })
with_default_phase p = p

-- The packets that a USB control container carries, and those of the compressed channel.
abbrev pub on_usb : PtpIpPacket → Bool
on_usb (PtpIpPacket.operation_request p) = true
on_usb (PtpIpPacket.operation_response p) = true
on_usb (PtpIpPacket.event p) = true
on_usb _ = false

abbrev pub on_fuji : PtpIpPacket → Bool
on_fuji (PtpIpPacket.operation_request p) = true
on_fuji (PtpIpPacket.operation_response p) = true
on_fuji _ = false

abbrev pub params_of : PtpIpPacket → List ℕ
params_of (PtpIpPacket.operation_request p) = p.params
params_of (PtpIpPacket.operation_response p) = p.params
params_of (PtpIpPacket.event p) = p.params
params_of _ = []

module _ (ctype code tid : ℕ) (hc : IsU16 ctype) (hk : IsU16 code) (ht : IsU32 tid) where
  usb_tail :
      {bs : List ℕ} {p : PtpIpPacket}
      → Ends (Usb.container ctype code tid) bs p
      → Ends Usb.decode_tail (control_tail ctype code tid bs) p
  unfolding Usb.decode_tail
  usb_tail {p = p} h = Ends-bind _ (u16-Codes ctype hc) (
      Ends-bind _ (u16-Codes code hk) (
        Ends-bind _ (u32-Codes tid ht)
          (Ends-bind_nil _ h (Ends-bind_nil _ finish-Ends (Ends-pure p)))))

  fuji_tail :
      {bs : List ℕ} {p : PtpIpPacket}
      → Ends (Fuji.frame ctype code tid) bs p
      → Ends Fuji.decode_tail (control_tail ctype code tid bs) p
  unfolding Fuji.decode_tail
  fuji_tail {p = p} h = Ends-bind _ (u16-Codes ctype hc) (
      Ends-bind _ (u16-Codes code hk) (
        Ends-bind _ (u32-Codes tid ht)
          (Ends-bind_nil _ h (Ends-bind_nil _ finish-Ends (Ends-pure p)))))

  usb_decode :
      {p : PtpIpPacket} (bs : List ℕ)
      → 12 + length bs < 2 ^ 32
      → Ends (Usb.container ctype code tid) bs p
      → Usb.decode (container_bytes ctype code tid bs) ≡ ok p
  unfolding Usb.decode
  usb_decode bs small h = rw (length-container_bytes ctype code tid bs) (
      run-Ends _ (
        Ends-bind _ (u32-Codes (12 + length bs) small)
          (rw (eq→== (12 + length bs) _ refl) (usb_tail h))))

  fuji_decode :
      {p : PtpIpPacket} (bs : List ℕ)
      → 12 + length bs < 2 ^ 32
      → Ends (Fuji.frame ctype code tid) bs p
      → Fuji.decode (container_bytes ctype code tid bs) ≡ ok p
  unfolding Fuji.decode
  fuji_decode bs small h = rw (length-container_bytes ctype code tid bs) (
      run-Ends _ (
        Ends-bind _ (u32-Codes (12 + length bs) small)
          (rw (eq→== (12 + length bs) _ refl) (fuji_tail h))))

-- `encode` of usb_ptp.rs, then `decode`: every request, response and event in range, in a container
-- below 2^32 bytes, comes back, but for the data phase of a request, which the container does not carry
-- and `decode` reads as 1.
pub usb-decode-encode :
    (p : PtpIpPacket)
    → IsWire p
    → on_usb p ≡ true
    → 12 + length (param_bytes (params_of p)) < 2 ^ 32
    → (bytes : List ℕ) × (Usb.encode p ≡ ok bytes) × (Usb.decode bytes ≡ ok (with_default_phase p))
unfolding Usb.encode Usb.container
usb-decode-encode (PtpIpPacket.operation_request p) h on small = (
  _,
  ap ok (patched-control Usb.command p.code p.transaction_id p.params small),
  usb_decode 1 p.code p.transaction_id (omega arith) h.1 h.2 (param_bytes p.params) small
      (Ends-apply _ (remaining_params-Ends p.params h.3)),
)
usb-decode-encode (PtpIpPacket.operation_response p) h on small = (
  _,
  ap ok (patched-control Usb.response p.code p.transaction_id p.params small),
  usb_decode 3 p.code p.transaction_id (omega arith) h.0 h.1 (param_bytes p.params) small
      (Ends-apply _ (remaining_params-Ends p.params h.2)),
)
usb-decode-encode (PtpIpPacket.event p) h on small = (
  _,
  ap ok (patched-control Usb.event_notice p.code p.transaction_id p.params small),
  usb_decode 4 p.code p.transaction_id (omega arith) h.0 h.1 (param_bytes p.params) small
      (Ends-apply _ (remaining_params-Ends p.params h.2)),
)
usb-decode-encode _ h on small = absurd (cc on)

-- `encode` of fuji_framing.rs, then `decode`: every request and response in range, in a frame below
-- 2^32 bytes, comes back, but for the data phase of a request, which `decode` reads as 1.
pub fuji-decode-encode :
    (p : PtpIpPacket)
    → IsWire p
    → on_fuji p ≡ true
    → 12 + length (param_bytes (params_of p)) < 2 ^ 32
    → (bytes : List ℕ) × (Fuji.encode p ≡ ok bytes)
      × (Fuji.decode bytes ≡ ok (with_default_phase p))
unfolding Fuji.encode Fuji.frame
fuji-decode-encode (PtpIpPacket.operation_request p) h on small = (
  _,
  ap ok (patched-control Fuji.op_request p.code p.transaction_id p.params small),
  fuji_decode 1 p.code p.transaction_id (omega arith) h.1 h.2 (param_bytes p.params) small
      (Ends-apply _ (remaining_params-Ends p.params h.3)),
)
fuji-decode-encode (PtpIpPacket.operation_response p) h on small = (
  _,
  ap ok (patched-control Fuji.op_response p.code p.transaction_id p.params small),
  fuji_decode 3 p.code p.transaction_id (omega arith) h.0 h.1 (param_bytes p.params) small
      (Ends-apply _ (remaining_params-Ends p.params h.2)),
)
fuji-decode-encode _ h on small = absurd (cc on)

-- A USB data container below 2^32 bytes, with a code of 16 bits and a transaction id of 32: any payload
-- comes back, with the transaction id and without the code.
pub usb-decode-encode_data :
    (code tid : ℕ) (payload : List ℕ)
    → IsU16 code
    → IsU32 tid
    → 12 + length payload < 2 ^ 32
    → Usb.decode (Usb.encode_data code tid payload)
      ≡ ok (PtpIpPacket.data_block (record { transaction_id = tid; payload = payload }))
unfolding Usb.encode_data Usb.container Writer.u32 Writer.u16 Writer.new
usb-decode-encode_data code tid payload hk ht small =
    ap Usb.decode (
      simp append_assoc
        (ap (λ n. to_le_bytes 4 n ++ control_tail 2 code tid payload) (omega arith)))
    ∙ usb_decode 2 code tid (omega arith) hk ht payload small (Ends-apply _ (rest-Ends payload))

fuji_data_bytes :
    (code tid : ℕ) (payload : List ℕ)
    → 12 + length payload < 2 ^ 32
    → Fuji.encode_data code tid payload ≡ some (container_bytes 2 code tid payload)
unfolding Fuji.encode_data
fuji_data_bytes code tid payload small =
    let exact : length payload % 2 ^ 32 + 12 ≡ 12 + length payload = omega arith in
    rw (exact, lt→ltb (12 + length payload) _ small) (simp append_assoc)

-- A data frame of the compressed channel below 2^32 bytes, with a code of 16 bits and a transaction id of
-- 32: header and payload are built without a panic, and `decode` reads the payload back.
pub fuji-decode-encode_data :
    (code tid : ℕ) (payload : List ℕ)
    → IsU16 code
    → IsU32 tid
    → 12 + length payload < 2 ^ 32
    → (bytes : List ℕ) × (Fuji.encode_data code tid payload ≡ some bytes)
      × (Fuji.decode bytes
          ≡ ok (PtpIpPacket.data_block (record { transaction_id = tid; payload = payload })))
unfolding Fuji.encode_data Fuji.frame
fuji-decode-encode_data code tid payload hk ht small = (
  container_bytes 2 code tid payload,
  fuji_data_bytes code tid payload small,
  fuji_decode 2 code tid (omega arith) hk ht payload small (Ends-apply _ (rest-Ends payload)),
)
