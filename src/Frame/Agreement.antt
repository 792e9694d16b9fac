-- ===== src/Frame/Agreement.antt =====
-- fuji_framing.rs against usb_ptp.rs: the compressed channel reuses the USB container model.
use ptpsim.Prelude.{ℕ, ◌≡◌, List, length, Bool, true, false, ok, arith, ◌==◌, if◌then◌else◌}
use ptpsim.Wire.Reader.{Reader, Decoder, ◌>>=◌, fail, run, new}
use ptpsim.Wire.Inversion.{bind_ok, run_ok}
use ptpsim.Packet.Types.{PtpIpPacket}
use ptpsim.Frame.Usb
use ptpsim.Frame.Fuji

-- Whatever `m` accepts, `n` accepts with the same result.
record Within {ℓ} {A : Type ℓ} (m n : Decoder A) : Type ℓ where
  at : (r : Reader) (a : A) (s : Reader) → m r ≡ ok (a, s) → n r ≡ ok (a, s)

Within-refl {ℓ} : {A : Type ℓ} (m : Decoder A) → Within m m
Within-refl m = record { at = λ r a s h. h }

Within-bind {ℓ κ} :
    {A : Type ℓ} {B : Type κ} (m : Decoder A) (f g : A → Decoder B)
    → ((a : A) → Within (f a) (g a))
    → Within (m >>= f) (m >>= g)
Within-bind m f g h = record {
  at = λ r b s e. let (a, t, e1, e2) = bind_ok m f r e in unfold ◌>>=◌ in rw e1 ((h a).at t b s e2);
}

Within-first {ℓ κ} :
    {A : Type ℓ} {B : Type κ} (m n : Decoder A) (f : A → Decoder B)
    → Within m n
    → Within (m >>= f) (n >>= f)
Within-first m n f h = record {
  at = λ r b s e. let (a, t, e1, e2) = bind_ok m f r e in unfold ◌>>=◌ in rw (h.at r a t e1) e2;
}

Within-if {ℓ} :
    {A : Type ℓ} (b : Bool) (m n k : Decoder A)
    → Within m n
    → Within (if b then m else k) (if b then n else k)
Within-if true m n k h = h
Within-if false m n k h = Within-refl k

container-Within :
    (ctype code tid : ℕ) → Within (Fuji.frame ctype code tid) (Usb.container ctype code tid)
unfolding Fuji.frame Usb.container fail
container-Within ctype code tid = record { at = λ r a s h. ground arith }

tail-Within : Within Fuji.decode_tail Usb.decode_tail
unfolding Fuji.decode_tail Usb.decode_tail
tail-Within = Within-bind _ _ _ λ ctype.
    Within-bind _ _ _
      λ code. Within-bind _ _ _ λ tid. Within-first _ _ _ (container-Within ctype code tid)

frame-Within : (n : ℕ) → Within (Fuji.decode_frame n) (Usb.decode_container n)
unfolding Fuji.decode_frame Usb.decode_container
frame-Within n = Within-bind _ _ _ λ declared. Within-if (declared == n) _ _ _ tail-Within

-- Any bytes that the Fuji decoder accepts, the USB decoder accepts as the same packet.
pub fuji_within_usb :
    (bytes : List ℕ) (p : PtpIpPacket) → Fuji.decode bytes ≡ ok p → Usb.decode bytes ≡ ok p
unfolding Fuji.decode Usb.decode
fuji_within_usb bytes p h =
    let (s, e) = run_ok (Fuji.decode_frame (length bytes)) bytes h in
    unfold run in rw ((frame-Within (length bytes)).at (new bytes) p s e)

-- A packet of the compressed channel is encoded to the same bytes as on USB.
pub fuji_bytes_eq_usb :
    (p : PtpIpPacket) (bytes : List ℕ) → Fuji.encode p ≡ ok bytes → Usb.encode p ≡ ok bytes
unfolding Fuji.encode Usb.encode
fuji_bytes_eq_usb (PtpIpPacket.operation_request p) bytes h = ground arith
fuji_bytes_eq_usb _ bytes h = ground arith
