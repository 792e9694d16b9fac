-- ===== src/Wire/Error.antt =====
-- crates/ptp-core/src/error.rs: the errors of the codecs.
use ptpsim.Prelude.{ℕ}

-- The text of `InvalidString`, one constructor for each literal in the source.
pub data StringFault : Type 0 where
  not_utf16 unsupported_datatype unknown_form_flag : StringFault

pub data DecodeError : Type 0 where
  unexpected_eof : (offset needed : ℕ) → DecodeError
  invalid_string : StringFault → DecodeError
  length_mismatch : (declared actual : ℕ) → DecodeError
  unknown_packet_type : ℕ → DecodeError
  trailing_bytes : (remaining : ℕ) → DecodeError
  array_too_long : ℕ → DecodeError

pub data EncodeError : Type 0 where
  string_too_long : ℕ → EncodeError
