-- ===== src/Wire/Codes/Read.antt =====
-- Rules for `Codes` and `Ends`: a decoder, started behind any `pre`, takes exactly `bs` and returns
-- `a`; with `Codes` whatever follows, with `Ends` where the input ends there.
use ptpsim.Prelude.{
  ℕ, ◌+◌, ◌*◌, ◌^◌, ◌≤◌, ◌<◌, ◌≡◌, refl, sym, ap, ◌∙◌, List, [], ◌++◌, ok, length, arith,
  length-append, take-append, drop-append, append_assoc, append-nil, le→ltb,
}
use ptpsim.Wire.Bytes.{
  to_le_bytes, length-to_le_bytes, from_le_bytes-to_le_bytes, ℤ, IsSigned, to_unsigned, to_signed,
  to_signed-to_unsigned, to_unsigned-lt,
}
use ptpsim.Wire.Reader.{
  Reader, Decoder, remaining, pure, ◌>>=◌, finish, take_bytes, unsigned, u8, u16, u32, u64, i8, i16,
  i32, i64, rest, run,
}

-- A reader that has consumed `pre` and has `xs` in front of it.
abbrev pub mid : List ℕ → List ℕ → Reader
mid pre xs = record { buf = pre ++ xs; pos = length pre }

pub record Codes {ℓ} {A : Type ℓ} (m : Decoder A) (bs : List ℕ) (a : A) : Type ℓ where
  pub at : (pre post : List ℕ) → m (mid pre (bs ++ post)) ≡ ok (a, mid (pre ++ bs) post)

pub record Ends {ℓ} {A : Type ℓ} (m : Decoder A) (bs : List ℕ) (a : A) : Type ℓ where
  pub at : (pre : List ℕ) → m (mid pre bs) ≡ ok (a, mid (pre ++ bs) [])

pub remaining-mid : (pre xs : List ℕ) → remaining (mid pre xs) ≡ length xs
remaining-mid pre xs = omega (arith, length-append pre xs)

module _ {ℓ} {A : Type ℓ} where
  pub Ends-of_Codes : {m : Decoder A} {bs : List ℕ} {a : A} → Codes m bs a → Ends m bs a
  Ends-of_Codes {m} {bs} {a} h = record {
    at = λ pre. ap (λ t. m (mid pre t)) (sym (append-nil bs)) ∙ h.at pre [];
  }

  pub Codes-pure : (a : A) → Codes (pure a) [] a
  unfolding pure
  Codes-pure a = record { at = λ pre post. rw append-nil }

  pub Ends-pure : (a : A) → Ends (pure a) [] a
  Ends-pure a = Ends-of_Codes (Codes-pure a)

module _ {ℓ κ} {A : Type ℓ} {B : Type κ} where
  pub Codes-bind :
      {m : Decoder A} {bs cs : List ℕ} {a : A} {b : B} (f : A → Decoder B)
      → Codes m bs a
      → Codes (f a) cs b
      → Codes (m >>= f) (bs ++ cs) b
  unfolding ◌>>=◌
  Codes-bind {bs} {cs} f hm hf = record {
    at = λ pre post.
        rw (append_assoc bs cs post, hm.at pre (cs ++ post), ← append_assoc pre bs cs)
          (hf.at (pre ++ bs) post);
  }

  pub Ends-bind :
      {m : Decoder A} {bs cs : List ℕ} {a : A} {b : B} (f : A → Decoder B)
      → Codes m bs a
      → Ends (f a) cs b
      → Ends (m >>= f) (bs ++ cs) b
  unfolding ◌>>=◌
  Ends-bind {bs} {cs} f hm hf = record {
    at = λ pre. rw (hm.at pre cs, ← append_assoc pre bs cs) (hf.at (pre ++ bs));
  }

  -- A last decoder that reads all that is left, such as `rest`, then only steps that read nothing.
  pub Ends-bind_nil :
      {m : Decoder A} {bs : List ℕ} {a : A} {b : B} (f : A → Decoder B)
      → Ends m bs a
      → Ends (f a) [] b
      → Ends (m >>= f) bs b
  unfolding ◌>>=◌
  Ends-bind_nil {bs} {b = b} f hm hf = record {
    at = λ pre.
        rw (hm.at pre) (hf.at (pre ++ bs) ∙ ap (λ t. ok (b, mid t [])) (append-nil (pre ++ bs)));
  }

  -- A last step that only applies a function.
  pub Codes-apply :
      {m : Decoder A} {bs : List ℕ} {a : A} (f : A → B)
      → Codes m bs a
      → Codes (m >>= (λ x. pure (f x))) bs (f a)
  unfolding ◌>>=◌ pure
  Codes-apply f h = record { at = λ pre post. rw (h.at pre post) }

  pub Ends-apply :
      {m : Decoder A} {bs : List ℕ} {a : A} (f : A → B)
      → Ends m bs a
      → Ends (m >>= (λ x. pure (f x))) bs (f a)
  unfolding ◌>>=◌ pure
  Ends-apply f h = record { at = λ pre. rw (h.at pre) }

pub finish-Ends : Ends finish [] tt
unfolding finish
finish-Ends = record {
  at = λ pre. rw (remaining-mid pre []) (ap (λ t. ok (tt, mid t [])) (sym (append-nil pre)));
}

pub take_bytes-Codes : (n : ℕ) (bs : List ℕ) → length bs ≡ n → Codes (take_bytes n) bs bs
unfolding take_bytes
take_bytes-Codes n bs h = record {
  at = λ pre post.
      rw (← h, le→ltb _ _ (enough pre post), drop-append pre (bs ++ post), take-append bs post)
        (ap (λ t. ok (bs, t)) (moved pre post));
}
  where
    enough : (pre post : List ℕ) → length bs ≤ remaining (mid pre (bs ++ post))
    enough pre post = omega (arith, length-append pre (bs ++ post), length-append bs post)

    moved :
        (pre post : List ℕ)
        → record (mid pre (bs ++ post)) { pos = length pre + length bs } ≡ mid (pre ++ bs) post
    moved pre post =
        λ i. record { buf = sym (append_assoc pre bs post) i; pos = sym (length-append pre bs) i }

pub unsigned-Codes : (n v : ℕ) → v < 256 ^ n → Codes (unsigned n) (to_le_bytes n v) v
unfolding unsigned
unsigned-Codes n v h = record {
  at = λ pre post. rw (
    (take_bytes-Codes n (to_le_bytes n v) (length-to_le_bytes n v)).at pre post,
    from_le_bytes-to_le_bytes n v h,
  );
}

pub u8-Codes : (v : ℕ) → v < 2 ^ 8 → Codes u8 (to_le_bytes 1 v) v
unfolding u8
u8-Codes v h = unsigned-Codes 1 v h

pub u16-Codes : (v : ℕ) → v < 2 ^ 16 → Codes u16 (to_le_bytes 2 v) v
unfolding u16
u16-Codes v h = unsigned-Codes 2 v h

pub u32-Codes : (v : ℕ) → v < 2 ^ 32 → Codes u32 (to_le_bytes 4 v) v
unfolding u32
u32-Codes v h = unsigned-Codes 4 v h

pub u64-Codes : (v : ℕ) → v < 2 ^ 64 → Codes u64 (to_le_bytes 8 v) v
unfolding u64
u64-Codes v h = unsigned-Codes 8 v h

pub rest-Ends : (bs : List ℕ) → Ends rest bs bs
unfolding rest
rest-Ends bs = record {
  at = λ pre.
      rw (drop-append pre bs)
        (λ i. ok (bs, record { buf = sym (append-nil (pre ++ bs)) i; pos = length (pre ++ bs) }));
}

module _ (half n : ℕ) (z : ℤ) (h : IsSigned half z) where
  -- A signed read is the unsigned one, reread.
  pub signed-Codes :
      2 * half ≡ 256 ^ n
      → Codes (unsigned n >>= (λ w. pure (to_signed half w))) (to_le_bytes n (to_unsigned half z)) z
  signed-Codes e = record {
    at = λ pre post.
        unfold ◌>>=◌ pure in
        rw (
          (unsigned-Codes n (to_unsigned half z) (omega (arith, to_unsigned-lt half z h))).at pre
              post,
          to_signed-to_unsigned half z h,
        );
  }

pub i8-Codes : (z : ℤ) → IsSigned (2 ^ 7) z → Codes i8 (to_le_bytes 1 (to_unsigned (2 ^ 7) z)) z
unfolding i8
i8-Codes z h = signed-Codes (2 ^ 7) 1 z h refl

pub i16-Codes : (z : ℤ) → IsSigned (2 ^ 15) z → Codes i16 (to_le_bytes 2 (to_unsigned (2 ^ 15) z)) z
unfolding i16
i16-Codes z h = signed-Codes (2 ^ 15) 2 z h refl

pub i32-Codes : (z : ℤ) → IsSigned (2 ^ 31) z → Codes i32 (to_le_bytes 4 (to_unsigned (2 ^ 31) z)) z
unfolding i32
i32-Codes z h = signed-Codes (2 ^ 31) 4 z h refl

pub i64-Codes : (z : ℤ) → IsSigned (2 ^ 63) z → Codes i64 (to_le_bytes 8 (to_unsigned (2 ^ 63) z)) z
unfolding i64
i64-Codes z h = signed-Codes (2 ^ 63) 8 z h refl

-- A decoder that reads the whole input, on that input.
pub run-Ends {ℓ} :
    {A : Type ℓ} (m : Decoder A) {bs : List ℕ} {a : A} → Ends m bs a → run m bs ≡ ok a
unfolding run
run-Ends m h = rw (h.at [])
