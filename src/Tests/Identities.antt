-- ===== src/Tests/Identities.antt =====
-- crates/protocol-primitives/src/client_identity.rs at a concrete device name.
use ptpsim.Prelude.{◌≡◌, ◌⊎◌, refl, [], ◌∷◌}
use ptpsim.Wire.Utf16.{Text}
use ptpsim.Identity.{
  normalize_client_name, fallback, IsCameraSafe, normalize_client_name-IsCameraSafe,
}

-- " Bo's X!"
abbrev device : Text
device = 32 ∷ 66 ∷ 111 ∷ 39 ∷ 115 ∷ 32 ∷ 88 ∷ 33 ∷ []

-- "bo-s-x"
device-normalized : normalize_client_name device ≡ 98 ∷ 111 ∷ 45 ∷ 115 ∷ 45 ∷ 120 ∷ []
unfolding normalize_client_name
device-normalized = refl

nothing-normalized : normalize_client_name (33 ∷ []) ≡ fallback
unfolding normalize_client_name
nothing-normalized = refl

normalize_client_name-IsCameraSafe_example :
    (normalize_client_name device ≡ fallback) ⊎ IsCameraSafe (normalize_client_name device)
normalize_client_name-IsCameraSafe_example = normalize_client_name-IsCameraSafe device
