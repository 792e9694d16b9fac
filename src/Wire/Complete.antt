-- ===== src/Wire/Complete.antt =====
-- `complete`: a whole dataset is accepted on exactly its own bytes.
use ptpsim.Prelude.{
  ℕ, ◌+◌, ◌≤◌, ◌<◌, ◌≡◌, ◌≢◌, List, [], ◌∷◌, ◌++◌, ok, err, length, take, drop, arith,
  take-append-drop, length-take,
}
use ptpsim.Wire.Error.{trailing_bytes}
use ptpsim.Wire.Reader.{Reader, Decoder, new, run, complete}
use ptpsim.Wire.Inversion.{bind_ok, run_ok}
use ptpsim.Wire.Codes.Read.{
  Codes, Ends-of_Codes, Ends-pure, Ends-bind_nil, finish-Ends, run-Ends, mid, remaining-mid,
}
use ptpsim.Wire.Local.{Local, extend}
use ptpsim.Wire.Sound.{Sound}

module _ {ℓ} {A : Type ℓ} {m : Decoder A} {bs : List ℕ} {a : A} (h : Codes m bs a) where
  pub complete_ok : run (complete m) bs ≡ ok a
  unfolding complete
  complete_ok =
      run-Ends _ (Ends-bind_nil _ (Ends-of_Codes h) (Ends-bind_nil _ finish-Ends (Ends-pure a)))

  -- Anything behind the bytes is an error that counts it.
  pub complete_suffix :
      (x : ℕ) (more : List ℕ)
      → run (complete m) (bs ++ (x ∷ more)) ≡ err (trailing_bytes (1 + length more))
  unfolding run complete new
  complete_suffix x more = rw (h.at [] (x ∷ more), remaining-mid bs (x ∷ more)) (ground arith)

  read_whole :
      Local m → (n : ℕ) (c : A) (s : Reader) → m (new (take n bs)) ≡ ok (c, s) → s.pos ≡ length bs
  unfolding new
  read_whole local n c s e =
      let more = local.at (record { buf = take n bs; pos = 0 }) s c (drop n bs) e in
      let glued : m (record { buf = bs; pos = 0 }) ≡ ok (c, extend s (drop n bs)) =
        rw (take-append-drop n bs) at more in
      let exact : m (record { buf = bs; pos = 0 }) ≡ ok (a, mid bs []) = (Ends-of_Codes h).at [] in
      cc (glued, exact)

  -- No proper prefix of the bytes is accepted, whatever the value.
  pub complete_prefix :
      Local m → Sound m → (n : ℕ) (b : A) → n < length bs → run (complete m) (take n bs) ≢ ok b
  unfolding complete
  complete_prefix local sound n b short accepted =
      let (t, e) = run_ok (complete m) (take n bs) accepted in
      let (c, s, e1, e2) = bind_ok m _ (new (take n bs)) e in
      let inside : s.pos ≤ length (take n bs) =
        unfold new in (sound.moves (new (take n bs)) s c (omega arith) e1).inside in
      absurd (omega (arith, inside, read_whole local n c s e1, length-take n bs))
