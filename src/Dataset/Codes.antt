-- ===== src/Dataset/Codes.antt =====
-- Lists of 16-bit codes, such as the operations that a device supports.
use ptpsim.Prelude.{ℕ, ◌≤◌, List, length, All, arith}
use ptpsim.Wire.Bytes.{IsU16, to_le_bytes, length-to_le_bytes}
use ptpsim.Wire.Reader.{u16, ptp_array, max_elements}
use ptpsim.Wire.Writer
use ptpsim.Wire.Writer.{Writer, emit}
use ptpsim.Wire.Codes.Read.{Codes, u16-Codes}
use ptpsim.Wire.Codes.Sequences.{array_bytes, ptp_array-Codes}
use ptpsim.Wire.Codes.Write.{Emits, u16-Emits, ptp_array-Emits}

-- A list of 16-bit codes that the decoder's sanity ceiling lets through.
pub record IsCodes (cs : List ℕ) : Type 0 where
  pub wide : All IsU16 cs
  pub few : length cs ≤ max_elements

pub u16_array-Codes :
    (cs : List ℕ) → IsCodes cs → Codes (ptp_array u16) (array_bytes (to_le_bytes 2) cs) cs
u16_array-Codes cs h =
    ptp_array-Codes IsU16 u16 (to_le_bytes 2) u16-Codes
      (λ c _. omega (arith, length-to_le_bytes 2 c)) cs h.wide h.few

pub u16_array-Emits :
    (cs : List ℕ)
    → IsCodes cs
    → Emits (Writer.ptp_array (λ n. emit (Writer.u16 n)) cs) (array_bytes (to_le_bytes 2) cs)
u16_array-Emits cs h =
    ptp_array-Emits IsU16 (λ n. emit (Writer.u16 n)) (to_le_bytes 2) (λ c _. u16-Emits c) cs h.wide
      (omega (arith, h.few))
