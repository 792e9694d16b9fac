-- ===== src/Wire/Writer.antt =====
-- crates/ptp-core/src/datatype.rs: `Writer`, the append-only little-endian writer.
-- An infallible method maps a writer to a writer; a fallible one is an `Encoder`.
use ptpsim.Prelude.{
  ℕ, ◌+◌, ◌%◌, ◌^◌, List, [], ◌∷◌, ◌++◌, Result, ok, err, length, take, drop, ltb, if◌then◌else◌,
  and_then,
}
use ptpsim.Wire.Error.{EncodeError, string_too_long}
use ptpsim.Wire.Bytes.{to_le_bytes, to_unsigned, ℤ}
use ptpsim.Wire.Utf16.{Text, encode_utf16}

pub record Writer : Type 0 where
  pub buf : List ℕ

unfoldable pub new : Writer
new = record { buf = [] }

-- `extend_from_slice`, which `bytes` is too.
unfoldable pub bytes : List ℕ → Writer → Writer
bytes bs w = record { buf = w.buf ++ bs }

unfoldable pub u8 : ℕ → Writer → Writer
unfolding bytes
u8 v w = bytes (to_le_bytes 1 v) w

unfoldable pub u16 : ℕ → Writer → Writer
unfolding bytes
u16 v w = bytes (to_le_bytes 2 v) w

unfoldable pub u32 : ℕ → Writer → Writer
unfolding bytes
u32 v w = bytes (to_le_bytes 4 v) w

unfoldable pub u64 : ℕ → Writer → Writer
unfolding bytes
u64 v w = bytes (to_le_bytes 8 v) w

unfoldable pub i8 : ℤ → Writer → Writer
unfolding u8
i8 v w = u8 (to_unsigned (2 ^ 7) v) w

unfoldable pub i16 : ℤ → Writer → Writer
unfolding u16
i16 v w = u16 (to_unsigned (2 ^ 15) v) w

unfoldable pub i32 : ℤ → Writer → Writer
unfolding u32
i32 v w = u32 (to_unsigned (2 ^ 31) v) w

unfoldable pub i64 : ℤ → Writer → Writer
unfolding u64
i64 v w = u64 (to_unsigned (2 ^ 63) v) w

-- `patch_u32`: `buf[offset..offset + 4]` becomes the bytes of `v`. Every caller has written those
-- four bytes before.
unfoldable pub patch_u32 : ℕ → ℕ → Writer → Writer
patch_u32 offset v w = record {
  buf = take offset w.buf ++ (to_le_bytes 4 v ++ drop (offset + 4) w.buf);
}

abbrev pub Encoder : Type 0
Encoder = Writer → Result EncodeError Writer

-- An infallible write in a chain of fallible ones.
unfoldable pub emit : (Writer → Writer) → Encoder
emit f w = ok (f w)

infixl 5 ◌>>◌
unfoldable pub ◌>>◌ : Encoder → Encoder → Encoder
◌>>◌ e f w = and_then (e w) f

-- `for it in items { f(self, it); }`
module _ {ℓ} {A : Type ℓ} where
  unfoldable pub each : (A → Encoder) → List A → Encoder
  unfolding emit ◌>>◌
  each f [] = emit (λ w. w)
  each f (a ∷ as') = do f a; each f as'

-- The code units, then the terminator; `count` counts both.
unfoldable pub units : List ℕ → Encoder
unfolding each u8 u16
units us =
    let count = length us + 1 in
    if ltb 255 count
    then (λ w. err (string_too_long count))
    else do emit (u8 count); each (λ u. emit (u16 u)) us; emit (u16 0)

unfoldable pub ptp_string : Text → Encoder
unfolding units
ptp_string [] = emit (u8 0)
ptp_string (c ∷ s) = units (encode_utf16 (c ∷ s))

-- `items.len() as u32`, then the items.
module _ {ℓ} {A : Type ℓ} where
  unfoldable pub ptp_array : (A → Encoder) → List A → Encoder
  unfolding each u32
  ptp_array f items = do emit (u32 (length items % 2 ^ 32)); each f items
