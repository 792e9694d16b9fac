-- ===== src/Wire/Local.antt =====
-- A decoder that succeeds does not look past what it has read: more input changes nothing.
use ptpsim.Prelude.{
  ℕ, zero, suc, ◌-◌, ◌≤◌, ◌≡◌, refl, List, [], ◌∷◌, ◌++◌, Option, none, some, Bool, true, false, ok,
  length, take, drop, arith, ◌==◌, if◌then◌else◌, length-append, take-append_le, ◌∙◌,
}
use ptpsim.Wire.Error.{DecodeError}
use ptpsim.Wire.Utf16.{Text}
use ptpsim.Wire.Reader.{
  Reader, Decoder, pure, fail, ◌>>=◌, take_bytes, unsigned, u8, u16, u32, u64, i8, i16, i32, i64,
  repeat, units_text, text_of_units, ptp_string, counted, ptp_array,
}
use ptpsim.Wire.Bytes.{from_le_bytes}
use ptpsim.Wire.Inversion.{bind_ok, take_bytes_ok, take_bytes_read}

abbrev pub extend : Reader → List ℕ → Reader
extend r more = record r { buf = r.buf ++ more }

pub record Local {ℓ} {A : Type ℓ} (m : Decoder A) : Type ℓ where
  pub at :
      (r s : Reader) (a : A) (more : List ℕ)
      → m r ≡ ok (a, s)
      → m (extend r more) ≡ ok (a, extend s more)

module _ {ℓ} {A : Type ℓ} where
  pub pure-Local : (a : A) → Local (pure a)
  unfolding pure
  pure-Local a = record { at = λ r s b more h. ground arith }

  pub fail-Local : (e : DecodeError) → Local (fail {A = A} e)
  unfolding fail
  fail-Local e = record { at = λ r s b more h. absurd (cc h) }

  pub if-Local : (b : Bool) {m n : Decoder A} → Local m → Local n → Local (if b then m else n)
  if-Local true hm hn = hm
  if-Local false hm hn = hn

module _ {ℓ κ} {A : Type ℓ} {B : Type κ} where
  pub bind-Local :
      {m : Decoder A} (f : A → Decoder B) → Local m → ((a : A) → Local (f a)) → Local (m >>= f)
  bind-Local {m} f hm hf = record {
    at = λ r s b more h.
        let (a, t, e1, e2) = bind_ok m f r h in
        unfold ◌>>=◌ in rw (hm.at r t a more e1) ((hf a).at t s b more e2);
  }

take-drop-append :
    (n k : ℕ) (bs more : List ℕ)
    → n ≤ length bs - k
    → take n (drop k (bs ++ more)) ≡ take n (drop k bs)
take-drop-append zero k bs more h = refl
take-drop-append (suc n) zero bs more h = take-append_le (suc n) bs more (omega arith)
take-drop-append (suc n) (suc k) [] more h = absurd (omega arith)
take-drop-append (suc n) (suc k) (b ∷ bs) more h = take-drop-append (suc n) k bs more (omega arith)

pub take_bytes-Local : (n : ℕ) → Local (take_bytes n)
take_bytes-Local n = record {
  at = λ r s bs more h.
      let (room, value, moved) = take_bytes_ok n r h in
      take_bytes_read n (extend r more) (omega (arith, length-append r.buf more))
      ∙ cc (value, moved, take-drop-append n r.pos r.buf more room);
}

pub unsigned-Local : (n : ℕ) → Local (unsigned n)
unfolding unsigned
unsigned-Local n = bind-Local _ (take_bytes-Local n) λ bs. pure-Local (from_le_bytes bs)

pub u8-Local : Local u8
unfolding u8
u8-Local = unsigned-Local 1

pub u16-Local : Local u16
unfolding u16
u16-Local = unsigned-Local 2

pub u32-Local : Local u32
unfolding u32
u32-Local = unsigned-Local 4

pub u64-Local : Local u64
unfolding u64
u64-Local = unsigned-Local 8

pub i8-Local : Local i8
unfolding i8
i8-Local = bind-Local _ u8-Local λ w. pure-Local _

pub i16-Local : Local i16
unfolding i16
i16-Local = bind-Local _ u16-Local λ w. pure-Local _

pub i32-Local : Local i32
unfolding i32
i32-Local = bind-Local _ u32-Local λ w. pure-Local _

pub i64-Local : Local i64
unfolding i64
i64-Local = bind-Local _ u64-Local λ w. pure-Local _

module _ {ℓ} {A : Type ℓ} where
  pub repeat-Local : (n : ℕ) (f : Decoder A) → Local f → Local (repeat n f)
  unfolding repeat
  repeat-Local zero f h = pure-Local []
  repeat-Local (suc n) f h =
      bind-Local _ h λ a. bind-Local _ (repeat-Local n f h) λ as'. pure-Local (a ∷ as')

  -- The guard on the advertised count passes with more input too.
  counted-Local : (n : ℕ) (f : Decoder A) → Local f → Local (counted n f)
  unfolding counted
  counted-Local n f hf = record {
    at = λ r s as' more h.
        ground (arith, length-append r.buf more, (repeat-Local n f hf).at r s as' more);
  }

  pub ptp_array-Local : (f : Decoder A) → Local f → Local (ptp_array f)
  unfolding ptp_array
  ptp_array-Local f h = bind-Local _ u32-Local λ n. counted-Local n f h

text_of_units-Local : (o : Option Text) → Local (text_of_units o)
text_of_units-Local none = fail-Local _
text_of_units-Local (some s) = pure-Local s

pub ptp_string-Local : Local ptp_string
unfolding ptp_string units_text
ptp_string-Local = bind-Local _ u8-Local λ count.
    if-Local (count == 0) (pure-Local [])
      (bind-Local _ (repeat-Local count u16 u16-Local) λ us. text_of_units-Local _)

pub ruleset local_rules = (
  bind-Local, if-Local, pure-Local, fail-Local, u8-Local, u16-Local, u32-Local, u64-Local, i8-Local,
  i16-Local, i32-Local, i64-Local, repeat-Local, ptp_array-Local, ptp_string-Local,
)
