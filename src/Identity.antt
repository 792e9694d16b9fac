-- ===== src/Identity.antt =====
-- crates/protocol-primitives/src/client_identity.rs: `normalize_client_name`. A `String` is the list of
-- its Unicode scalar values.
use ptpsim.Prelude.{
  ℕ, ◌+◌, ◌≤◌, ◌≡◌, ◌⊎◌, inl, inr, refl, [], ◌∷◌, ◌++◌, Bool, true, false, ◌&&◌, ◌||◌, not, length,
  take, All, leb, ◌==◌, if◌then◌else◌, is_empty, arith, length-take, Bool-cases, All-append,
  All-take,
}
use ptpsim.Wire.Utf16.{Text}

abbrev pub max_name_chars : ℕ
max_name_chars = 18

-- "client application"
abbrev pub fallback : Text
fallback =
    99 ∷ 108 ∷ 105 ∷ 101 ∷ 110 ∷ 116 ∷ 32 ∷ 97 ∷ 112 ∷ 112 ∷ 108 ∷ 105 ∷ 99 ∷ 97 ∷ 116 ∷ 105 ∷ 111
    ∷ 110 ∷ []

abbrev pub is_ascii_alphanumeric : ℕ → Bool
is_ascii_alphanumeric c =
    (leb 48 c && leb c 57) || ((leb 65 c && leb c 90) || (leb 97 c && leb c 122))

abbrev pub to_ascii_lowercase : ℕ → ℕ
to_ascii_lowercase c = if leb 65 c && leb c 90 then c + 32 else c

-- One round of the loop: `joined` and `pending_dash`.
abbrev pub join_char : Text × Bool → ℕ → Text × Bool
join_char (joined, pending_dash) c =
    if is_ascii_alphanumeric c
    then (
      (if pending_dash && not (is_empty joined) then joined ++ (45 ∷ []) else joined)
          ++ (to_ascii_lowercase c ∷ []),
      false,
    )
    else (joined, true)

abbrev pub join_all : Text × Bool → Text → Text × Bool
join_all state [] = state
join_all state (c ∷ s) = join_all (join_char state c) s

abbrev pub trim_start : Text → Text
trim_start [] = []
trim_start (c ∷ s) = let rest = trim_start s in if c == 45 then rest else c ∷ s

abbrev pub trim_end : Text → Text
trim_end [] = []
trim_end (c ∷ s) = let rest = trim_end s in if is_empty rest && (c == 45) then [] else c ∷ rest

-- `capped.trim_matches('-')`, and the fallback.
unfoldable pub normalize_client_name : Text → Text
normalize_client_name raw =
    let trimmed = trim_end (trim_start (take max_name_chars (join_all ([], false) raw).0)) in
    if is_empty trimmed then fallback else trimmed

-- A lowercase letter, a digit or a dash.
abbrev pub IsSafe : ℕ → Type 0
IsSafe c = (c ≡ 45) ⊎ (((48 ≤ c) × (c ≤ 57)) ⊎ ((97 ≤ c) × (c ≤ 122)))

lowercase-IsSafe : (c : ℕ) → is_ascii_alphanumeric c ≡ true → IsSafe (to_ascii_lowercase c)
lowercase-IsSafe c h = ground arith

join_char-IsSafe :
    (joined : Text) (pending : Bool) (c : ℕ)
    → All IsSafe joined
    → All IsSafe (join_char (joined, pending) c).0
join_char-IsSafe joined pending c h = elim (Bool-cases (is_ascii_alphanumeric c)) [
  | inl p ↦ rw p (
      All-append IsSafe _ (to_ascii_lowercase c ∷ []) (dashed joined pending h)
        (lowercase-IsSafe c p, tt))
  | inr p ↦ rw p h
]
  where
    dashed :
        (joined : Text) (pending : Bool)
        → All IsSafe joined
        → All IsSafe (if pending && not (is_empty joined) then joined ++ (45 ∷ []) else joined)
    dashed [] true h = tt
    dashed [] false h = tt
    dashed (x ∷ xs) true h = All-append IsSafe (x ∷ xs) (45 ∷ []) h (inl refl, tt)
    dashed (x ∷ xs) false h = h

join_all-IsSafe :
    (s joined : Text) (pending : Bool)
    → All IsSafe joined
    → All IsSafe (join_all (joined, pending) s).0
join_all-IsSafe [] joined pending h = h
join_all-IsSafe (c ∷ s) joined pending h =
    join_all-IsSafe s (join_char (joined, pending) c).0 (join_char (joined, pending) c).1
      (join_char-IsSafe joined pending c h)

trim_start-IsSafe :
    (s : Text) → All IsSafe s → All IsSafe (trim_start s) × (length (trim_start s) ≤ length s)
trim_start-IsSafe [] h = (tt, omega arith)
trim_start-IsSafe (c ∷ s) h = elim (Bool-cases (c == 45)) [
  | inl p ↦ let t = trim_start-IsSafe s h.1 in rw p (t.0, omega (arith, t.1))
  | inr p ↦ rw p (h, omega arith)
]

trim_end-IsSafe :
    (s : Text) → All IsSafe s → All IsSafe (trim_end s) × (length (trim_end s) ≤ length s)
trim_end-IsSafe [] h = (tt, omega arith)
trim_end-IsSafe (c ∷ s) h = elim (Bool-cases (is_empty (trim_end s) && (c == 45))) [
  | inl p ↦ rw p (tt, omega arith)
  | inr p ↦ let t = trim_end-IsSafe s h.1 in rw p ((h.0, t.0), omega (arith, t.1))
]

-- The first character is no dash, unless there is none.
abbrev pub NoDashFirst : Text → Type 0
NoDashFirst [] = Unit
NoDashFirst (c ∷ s) = (c == 45) ≡ false

abbrev pub NoDashLast : Text → Type 0
NoDashLast [] = Unit
NoDashLast (c ∷ []) = (c == 45) ≡ false
NoDashLast (c ∷ d ∷ s) = NoDashLast (d ∷ s)

trim_start-NoDashFirst : (s : Text) → NoDashFirst (trim_start s)
trim_start-NoDashFirst [] = tt
trim_start-NoDashFirst (c ∷ s) = elim (Bool-cases (c == 45)) [
  | inl p ↦ rw p (trim_start-NoDashFirst s)
  | inr p ↦ rw p p
]

trim_end-NoDashFirst : (s : Text) → NoDashFirst s → NoDashFirst (trim_end s)
trim_end-NoDashFirst [] h = tt
trim_end-NoDashFirst (c ∷ s) h = elim (Bool-cases (is_empty (trim_end s) && (c == 45))) [
  | inl p ↦ rw p tt
  | inr p ↦ rw p h
]

trim_end-NoDashLast : (s : Text) → NoDashLast (trim_end s)
trim_end-NoDashLast [] = tt
trim_end-NoDashLast (c ∷ s) = last c (trim_end s) (trim_end-NoDashLast s)
  where
    last :
        (c : ℕ) (rest : Text)
        → NoDashLast rest
        → NoDashLast (if is_empty rest && (c == 45) then [] else c ∷ rest)
    last c [] h = elim (Bool-cases (c == 45)) [ inl p ↦ rw p tt | inr p ↦ rw p p ]
    last c (d ∷ s) h = h

-- A name that a camera takes: from one to 18 lowercase letters, digits and dashes, no dash at an end.
pub record IsCameraSafe (name : Text) : Type 0 where
  pub nonempty : 1 ≤ length name
  pub short : length name ≤ 18
  pub safe : All IsSafe name
  pub front : NoDashFirst name
  pub back : NoDashLast name

-- Every text at all is normalized to the fallback, or to one to 18 lowercase ASCII letters, digits and
-- dashes, with no dash at either end.
pub normalize_client_name-IsCameraSafe :
    (raw : Text) → (normalize_client_name raw ≡ fallback) ⊎ IsCameraSafe (normalize_client_name raw)
unfolding normalize_client_name
normalize_client_name-IsCameraSafe raw = elim (Bool-cases (is_empty trimmed)) [
  | inl p ↦ inl (rw p refl)
  | inr p ↦ inr (
      rw p (record {
        nonempty = not_empty trimmed p;
        short = omega (arith, started.1, ended.1, length-take 18 joined);
        safe = ended.0;
        front =
            trim_end-NoDashFirst (trim_start (take 18 joined))
              (trim_start-NoDashFirst (take 18 joined));
        back = trim_end-NoDashLast (trim_start (take 18 joined));
      }))
]
  where
    joined : Text
    joined = (join_all ([], false) raw).0

    trimmed : Text
    trimmed = trim_end (trim_start (take 18 joined))

    started :
        All IsSafe (trim_start (take 18 joined))
        × (length (trim_start (take 18 joined)) ≤ length (take 18 joined))
    started =
        trim_start-IsSafe (take 18 joined)
          (All-take IsSafe 18 joined (join_all-IsSafe raw [] false tt))

    ended : All IsSafe trimmed × (length trimmed ≤ length (trim_start (take 18 joined)))
    ended = trim_end-IsSafe (trim_start (take 18 joined)) started.0

    not_empty : (xs : Text) → is_empty xs ≡ false → 1 ≤ length xs
    not_empty xs h = ground arith
