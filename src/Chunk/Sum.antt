-- ===== src/Chunk/Sum.antt =====
-- crates/protocol-primitives/src/chunk_frame.rs: `source_sum16` against the plain sum of the bytes.
use ptpsim.Prelude.{ℕ, ◌+◌, ◌%◌, ◌^◌, ◌<◌, ◌≡◌, List, [], ◌∷◌, ◌++◌, arith}
use ptpsim.Chunk.Types.{sum_from, source_sum16}

abbrev pub total : List ℕ → ℕ
total [] = 0
total (b ∷ bs) = b + total bs

sum_from-total : (bs : List ℕ) (s : ℕ) → s < 2 ^ 16 → sum_from s bs ≡ (s + total bs) % 2 ^ 16
unfolding sum_from
sum_from-total [] s h = omega arith
sum_from-total (b ∷ bs) s h = omega (arith, sum_from-total bs ((s + b) % 2 ^ 16) (omega arith))

total-append : (xs ys : List ℕ) → total (xs ++ ys) ≡ total xs + total ys
total-append [] ys = omega arith
total-append (x ∷ xs) ys = omega (arith, total-append xs ys)

pub source_sum16-total : (bs : List ℕ) → source_sum16 bs ≡ total bs % 2 ^ 16
unfolding source_sum16
source_sum16-total bs = omega (arith, sum_from-total bs 0 (omega arith))

-- The checksum of two pieces in a row is the sum of their checksums, modulo 2^16.
pub source_sum16-append :
    (xs ys : List ℕ) → source_sum16 (xs ++ ys) ≡ (source_sum16 xs + source_sum16 ys) % 2 ^ 16
source_sum16-append xs ys = omega (
  arith,
  source_sum16-total (xs ++ ys),
  source_sum16-total xs,
  source_sum16-total ys,
  total-append xs ys,
)
