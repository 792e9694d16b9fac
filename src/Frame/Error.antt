-- ===== src/Frame/Error.antt =====
-- crates/protocol-primitives/src/error.rs, with a constructor for each message of the `String`s.
use ptpsim.Prelude.{ℕ, Bool}
use ptpsim.Wire.Error.{EncodeError}
use ptpsim.Wire.Bytes.{ℤ}

pub data FramingError : Type 0 where
  not_on_compressed_channel unsupported_packet : FramingError
  encode_failed : EncodeError → FramingError
  guid_length : ℕ → FramingError
  value_too_wide : (value : ℤ) (width : ℕ) (signed : Bool) → FramingError
  init_ack init_request : FramingError
