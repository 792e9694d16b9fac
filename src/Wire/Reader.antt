-- ===== src/Wire/Reader.antt =====
-- crates/ptp-core/src/datatype.rs: `Reader`, the little-endian cursor over a byte slice.
-- A method that may fail returns the value and the reader it leaves; every caller in the sources
-- leaves by `?` on an error and drops the reader with it.
use ptpsim.Prelude.{
  ℕ, zero, suc, ◌+◌, ◌-◌, ◌^◌, List, [], ◌∷◌, Option, none, some, Result, ok, err, length, take,
  drop, ltb, ◌==◌, if◌then◌else◌, and_then,
}
use ptpsim.Wire.Error.{
  DecodeError, unexpected_eof, invalid_string, trailing_bytes, array_too_long, not_utf16,
}
use ptpsim.Wire.Bytes.{from_le_bytes, to_signed, ℤ}
use ptpsim.Wire.Utf16.{Text, from_utf16}

pub record Reader : Type 0 where
  pub buf : List ℕ
  pub pos : ℕ

unfoldable pub new : List ℕ → Reader
new buf = record { buf = buf; pos = 0 }

abbrev pub remaining : Reader → ℕ
remaining r = length r.buf - r.pos

abbrev pub Decoder {ℓ} : Type ℓ → Type ℓ
Decoder A = Reader → Result DecodeError (A × Reader)

module _ {ℓ} {A : Type ℓ} where
  unfoldable pub pure : A → Decoder A
  pure a r = ok (a, r)

  unfoldable pub fail : DecodeError → Decoder A
  fail e r = err e

module _ {ℓ κ} {A : Type ℓ} {B : Type κ} where
  infixl 5 ◌>>=◌
  unfoldable pub ◌>>=◌ : Decoder A → (A → Decoder B) → Decoder B
  ◌>>=◌ m f r = and_then (m r) (λ (a, s). f a s)

infixl 5 ◌>>◌
abbrev pub ◌>>◌ {κ} : {B : Type κ} → Decoder (Unit {0}) → Decoder B → Decoder B
m >> k = m >>= λ _. k

-- `finish`: the whole input was consumed.
unfoldable pub finish : Decoder (Unit {0})
finish r = if remaining r == 0 then ok (tt, r) else err (trailing_bytes (remaining r))

-- `take`, which `bytes` is too.
unfoldable pub take_bytes : ℕ → Decoder (List ℕ)
take_bytes n r =
    if ltb (remaining r) n
    then err (unexpected_eof r.pos (n - remaining r))
    else ok (take n (drop r.pos r.buf), record r { pos = r.pos + n })

-- `u8`, `u16`, `u32`, `u64`: `n` bytes, lowest first.
unfoldable pub unsigned : ℕ → Decoder ℕ
unfolding take_bytes ◌>>=◌ pure
unsigned n = do bs ← take_bytes n; pure (from_le_bytes bs)

unfoldable pub u8 : Decoder ℕ
unfolding unsigned
u8 = unsigned 1

unfoldable pub u16 : Decoder ℕ
unfolding unsigned
u16 = unsigned 2

unfoldable pub u32 : Decoder ℕ
unfolding unsigned
u32 = unsigned 4

unfoldable pub u64 : Decoder ℕ
unfolding unsigned
u64 = unsigned 8

unfoldable pub i8 : Decoder ℤ
unfolding u8
i8 = do w ← u8; pure (to_signed (2 ^ 7) w)

unfoldable pub i16 : Decoder ℤ
unfolding u16
i16 = do w ← u16; pure (to_signed (2 ^ 15) w)

unfoldable pub i32 : Decoder ℤ
unfolding u32
i32 = do w ← u32; pure (to_signed (2 ^ 31) w)

unfoldable pub i64 : Decoder ℤ
unfolding u64
i64 = do w ← u64; pure (to_signed (2 ^ 63) w)

-- `rest`: what is left of the buffer.
unfoldable pub rest : Decoder (List ℕ)
rest r = ok (drop r.pos r.buf, record r { pos = length r.buf })

-- `for _ in 0..count { out.push(f(self)?) }`
module _ {ℓ} {A : Type ℓ} where
  unfoldable pub repeat : ℕ → Decoder A → Decoder (List A)
  unfolding ◌>>=◌ pure
  repeat zero f = pure []
  repeat (suc n) f = do a ← f; as' ← repeat n f; pure (a ∷ as')

-- `if units.last() == Some(&0) { units.pop(); }`
unfoldable pub drop_terminator : List ℕ → List ℕ
drop_terminator [] = []
drop_terminator (u ∷ []) = if u == 0 then [] else u ∷ []
drop_terminator (u ∷ v ∷ us) = u ∷ drop_terminator (v ∷ us)

abbrev pub text_of_units : Option Text → Decoder Text
text_of_units none = fail (invalid_string not_utf16)
text_of_units (some s) = pure s

unfoldable pub units_text : ℕ → Decoder Text
unfolding repeat u16 fail
units_text count = do units ← repeat count u16; text_of_units (from_utf16 (drop_terminator units))

unfoldable pub ptp_string : Decoder Text
unfolding u8 units_text
ptp_string = do count ← u8; if count == 0 then pure [] else units_text count

abbrev pub max_elements : ℕ
max_elements = 2 ^ 24

module _ {ℓ} {A : Type ℓ} where
  -- The two guards on an advertised count, then the elements.
  unfoldable pub counted : ℕ → Decoder A → Decoder (List A)
  unfolding repeat
  counted count f r =
      if ltb max_elements count
      then err (array_too_long count)
      else if ltb (remaining r) count
      then err (unexpected_eof r.pos (count - remaining r))
      else repeat count f r

  unfoldable pub ptp_array : Decoder A → Decoder (List A)
  unfolding u32 counted
  ptp_array f = do count ← u32; counted count f

-- A decoder on a whole buffer; the reader is dropped at the end.
module _ {ℓ} {A : Type ℓ} where
  unfoldable pub run : Decoder A → List ℕ → Result DecodeError A
  unfolding new
  run m bytes = and_then (m (new bytes)) (λ (a, s). ok a)

-- `let value = …; r.finish()?; Ok(value)`: the fields, then the check that nothing is left.
module _ {ℓ} {A : Type ℓ} where
  unfoldable pub complete : Decoder A → Decoder A
  unfolding finish ◌>>=◌ pure
  complete m = do value ← m; finish; pure value
