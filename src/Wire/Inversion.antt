-- ===== src/Wire/Inversion.antt =====
-- What a decoder that succeeded has read: the converse of `Codes`, for any reader.
use ptpsim.Prelude.{ℕ, ◌+◌, ◌≤◌, ◌≡◌, List, take, drop, ok, arith, inl, inr, Result-cases, le→ltb}
use ptpsim.Wire.Bytes.{from_le_bytes}
use ptpsim.Wire.Reader.{Reader, Decoder, remaining, ◌>>=◌, take_bytes, unsigned, u32, run, new}

module _ {ℓ κ} {A : Type ℓ} {B : Type κ} where
  pub bind_ok :
      (m : Decoder A) (f : A → Decoder B) (r : Reader) {q : B × Reader}
      → (m >>= f) r ≡ ok q
      → (a : A) × (s : Reader) × (m r ≡ ok (a, s)) × (f a s ≡ ok q)
  unfolding ◌>>=◌
  bind_ok m f r {q} h = elim (Result-cases (m r)) [
    | inl ((a, s), e) ↦ (a, s, e, rw e at h)
    | inr (x, e) ↦ absurd (cc (h, e))
  ]

module _ {ℓ} {A : Type ℓ} where
  pub run_ok :
      (m : Decoder A) (bs : List ℕ) {a : A}
      → run m bs ≡ ok a
      → (s : Reader) × (m (new bs) ≡ ok (a, s))
  unfolding run
  run_ok m bs {a} h = elim (Result-cases (m (new bs))) [
    | inl ((b, s), e) ↦ (s, cc (h, e))
    | inr (x, e) ↦ absurd (cc (h, e))
  ]

pub unsigned_ok :
    (n : ℕ) (r : Reader) {a : ℕ} {s : Reader}
    → unsigned n r ≡ ok (a, s)
    → (n ≤ remaining r)
      × (a ≡ from_le_bytes (take n (drop r.pos r.buf)))
      × (s ≡ record r { pos = r.pos + n })
unfolding unsigned
unsigned_ok n r h = ground arith

pub u32_ok :
    (r : Reader) {a : ℕ} {s : Reader}
    → u32 r ≡ ok (a, s)
    → (4 ≤ remaining r)
      × (a ≡ from_le_bytes (take 4 (drop r.pos r.buf)))
      × (s ≡ record r { pos = r.pos + 4 })
unfolding u32
u32_ok r h = unsigned_ok 4 r h

-- And forwards, for a reader that has the bytes.
pub u32_read :
    (r : Reader)
    → 4 ≤ remaining r
    → u32 r ≡ ok (from_le_bytes (take 4 (drop r.pos r.buf)), record r { pos = r.pos + 4 })
unfolding u32
u32_read r h = rw (le→ltb (remaining r) 4 h)

pub take_bytes_ok :
    (n : ℕ) (r : Reader) {bs : List ℕ} {s : Reader}
    → take_bytes n r ≡ ok (bs, s)
    → (n ≤ remaining r) × (bs ≡ take n (drop r.pos r.buf)) × (s ≡ record r { pos = r.pos + n })
unfolding take_bytes
take_bytes_ok n r h = ground arith

pub take_bytes_read :
    (n : ℕ) (r : Reader)
    → n ≤ remaining r
    → take_bytes n r ≡ ok (take n (drop r.pos r.buf), record r { pos = r.pos + n })
unfolding take_bytes
take_bytes_read n r h = rw (le→ltb (remaining r) n h)
