-- ===== src/Wire/Sound.antt =====
-- What every decoder keeps: the buffer, and a position that only moves forward and stays inside it;
-- and what an end-of-input error says.
use ptpsim.Prelude.{
  ℕ, zero, suc, ◌≤◌, ◌≡◌, [], ◌∷◌, Option, none, some, Bool, true, false, ok, err, length, arith,
  ◌==◌, if◌then◌else◌, Result-cases, inl, inr, ◌≢◌, ◌∙◌, ap,
}
use ptpsim.Wire.Error.{DecodeError, unexpected_eof}
use ptpsim.Wire.Bytes.{from_le_bytes}
use ptpsim.Wire.Utf16.{Text}
use ptpsim.Wire.Reader.{
  Reader, Decoder, pure, fail, ◌>>=◌, finish, take_bytes, unsigned, u8, u16, u32, u64, i8, i16, i32,
  i64, rest, repeat, units_text, text_of_units, ptp_string, counted, ptp_array,
}
use ptpsim.Wire.Inversion.{bind_ok}

-- The subtraction in `remaining` is exact.
abbrev pub IsValid : Reader → Type 0
IsValid r = r.pos ≤ length r.buf

pub record Moved (r s : Reader) : Type 0 where
  pub same : s.buf ≡ r.buf
  pub forward : r.pos ≤ s.pos
  pub inside : s.pos ≤ length r.buf

-- The offset is where the reader stood or further on, inside the input, and bytes are missing.
pub record Short (r : Reader) (offset needed : ℕ) : Type 0 where
  pub after : r.pos ≤ offset
  pub inside : offset ≤ length r.buf
  pub missing : 1 ≤ needed

pub record Sound {ℓ} {A : Type ℓ} (m : Decoder A) : Type ℓ where
  pub moves : (r s : Reader) (a : A) → IsValid r → m r ≡ ok (a, s) → Moved r s
  pub stops :
      (r : Reader) (offset needed : ℕ)
      → IsValid r
      → m r ≡ err (unexpected_eof offset needed)
      → Short r offset needed

module _ {ℓ} {A : Type ℓ} where
  pub pure-Sound : (a : A) → Sound (pure a)
  unfolding pure
  pure-Sound a = record { moves = λ r s b v h. ground arith; stops = λ r o n v h. absurd (cc h) }

  pub fail-Sound : (e : DecodeError) → ((o n : ℕ) → e ≢ unexpected_eof o n) → Sound (fail {A = A} e)
  unfolding fail
  fail-Sound e k = record {
    moves = λ r s b v h. absurd (cc h);
    stops = λ r o n v h. absurd (k o n (cc h));
  }

  pub if-Sound : (b : Bool) {m n : Decoder A} → Sound m → Sound n → Sound (if b then m else n)
  if-Sound true hm hn = hm
  if-Sound false hm hn = hn

Moved-trans : {r s t : Reader} → Moved r s → Moved s t → Moved r t
Moved-trans a b = record {
  same = b.same ∙ a.same;
  forward = omega (arith, a.forward, b.forward);
  inside = omega (arith, b.inside, ap (length {A = ℕ}) a.same);
}

Short-after : {r s : Reader} {o n : ℕ} → Moved r s → Short s o n → Short r o n
Short-after a b = record {
  after = omega (arith, a.forward, b.after);
  inside = omega (arith, b.inside, ap (length {A = ℕ}) a.same);
  missing = b.missing;
}

Moved-IsValid : {r s : Reader} → Moved r s → IsValid s
Moved-IsValid a = omega (arith, a.inside, ap (length {A = ℕ}) a.same)

module _ {ℓ κ} {A : Type ℓ} {B : Type κ} where
  pub bind-Sound :
      {m : Decoder A} (f : A → Decoder B) → Sound m → ((a : A) → Sound (f a)) → Sound (m >>= f)
  bind-Sound {m} f hm hf = record {
    moves = λ r s b v h.
        let (a, t, e1, e2) = bind_ok m f r h in
        let one = hm.moves r t a v e1 in
        Moved-trans one ((hf a).moves t s b (Moved-IsValid one) e2);
    stops = λ r o n v h. elim (Result-cases (m r)) [
      | inl ((a, t), e) ↦
          let one = hm.moves r t a v e in
          Short-after one ((hf a).stops t o n (Moved-IsValid one) (unfold ◌>>=◌ in cc (e, h)))
      | inr (x, e) ↦ hm.stops r o n v (unfold ◌>>=◌ in cc (e, h))
    ];
  }

pub take_bytes-Sound : (n : ℕ) → Sound (take_bytes n)
unfolding take_bytes
take_bytes-Sound n = record {
  moves = λ r s bs v h. ground arith;
  stops = λ r o k v h. ground arith;
}

pub finish-Sound : Sound finish
unfolding finish
finish-Sound = record { moves = λ r s u v h. ground arith; stops = λ r o k v h. ground arith }

pub rest-Sound : Sound rest
unfolding rest
rest-Sound = record { moves = λ r s u v h. ground arith; stops = λ r o k v h. ground arith }

pub unsigned-Sound : (n : ℕ) → Sound (unsigned n)
unfolding unsigned
unsigned-Sound n = bind-Sound _ (take_bytes-Sound n) λ bs. pure-Sound (from_le_bytes bs)

pub u8-Sound : Sound u8
unfolding u8
u8-Sound = unsigned-Sound 1

pub u16-Sound : Sound u16
unfolding u16
u16-Sound = unsigned-Sound 2

pub u32-Sound : Sound u32
unfolding u32
u32-Sound = unsigned-Sound 4

pub u64-Sound : Sound u64
unfolding u64
u64-Sound = unsigned-Sound 8

pub i8-Sound : Sound i8
unfolding i8
i8-Sound = bind-Sound _ u8-Sound λ w. pure-Sound _

pub i16-Sound : Sound i16
unfolding i16
i16-Sound = bind-Sound _ u16-Sound λ w. pure-Sound _

pub i32-Sound : Sound i32
unfolding i32
i32-Sound = bind-Sound _ u32-Sound λ w. pure-Sound _

pub i64-Sound : Sound i64
unfolding i64
i64-Sound = bind-Sound _ u64-Sound λ w. pure-Sound _

module _ {ℓ} {A : Type ℓ} where
  pub repeat-Sound : (n : ℕ) (f : Decoder A) → Sound f → Sound (repeat n f)
  unfolding repeat
  repeat-Sound zero f h = pure-Sound []
  repeat-Sound (suc n) f h =
      bind-Sound _ h λ a. bind-Sound _ (repeat-Sound n f h) λ as'. pure-Sound (a ∷ as')

  counted-Sound : (n : ℕ) (f : Decoder A) → Sound f → Sound (counted n f)
  unfolding counted
  counted-Sound n f hf = record {
    moves = λ r s as' v h. ground (arith, (repeat-Sound n f hf).moves r s as');
    stops = λ r o k v h. ground (arith, (repeat-Sound n f hf).stops r o k);
  }

  pub ptp_array-Sound : (f : Decoder A) → Sound f → Sound (ptp_array f)
  unfolding ptp_array
  ptp_array-Sound f h = bind-Sound _ u32-Sound λ n. counted-Sound n f h

text_of_units-Sound : (o : Option Text) → Sound (text_of_units o)
text_of_units-Sound none = fail-Sound _ (λ o n e. cc)
text_of_units-Sound (some s) = pure-Sound s

pub ptp_string-Sound : Sound ptp_string
unfolding ptp_string units_text
ptp_string-Sound = bind-Sound _ u8-Sound λ count.
    if-Sound (count == 0) (pure-Sound [])
      (bind-Sound _ (repeat-Sound count u16 u16-Sound) λ us. text_of_units-Sound _)
