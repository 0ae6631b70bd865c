-- ===== src/Error.antt =====
-- crates/runtime-core/src/error.rs, and `Result` at that error.
use gooselake.Base.{String, ◌<>◌, ◌≡◌, refl, ◌⊎◌, inl, inr}

pub data RuntimeError : Type 0 where
  configuration provider_already_registered provider_not_registered : String → RuntimeError
  not_found invalid_state protocol_violation unsupported bootstrap io : String → RuntimeError

pub data Result {ℓ} (A : Type ℓ) : Type ℓ where
  ok : A → Result A
  err : RuntimeError → Result A

-- A result is a value or an error.
pub Result-cases :
    {A : Type 0} (r : Result A) → ((a : A) × (r ≡ ok a)) ⊎ ((e : RuntimeError) × (r ≡ err e))
Result-cases (ok a) = inl (a, refl)
Result-cases (err e) = inr (e, refl)

pub err-not_ok : {A : Type 0} (e : RuntimeError) (a : A) (r : Result A) → r ≡ err e → ¬ (r ≡ ok a)
err-not_ok e a r h h' = cc

pub ok-eq : {A : Type 0} {a b : A} → (r : Result A) → r ≡ ok a → r ≡ ok b → a ≡ b
ok-eq r h h' = cc

-- `error.to_string()`, by the `#[error]` formats.
unfoldable pub to_string : RuntimeError → String
to_string (configuration s) = "configuration error: " <> s
to_string (provider_already_registered s) = "provider '" <> (s <> "' is already registered")
to_string (provider_not_registered s) = "provider '" <> (s <> "' is not registered")
to_string (not_found s) = "resource not found: " <> s
to_string (invalid_state s) = "invalid state: " <> s
to_string (protocol_violation s) = "protocol violation: " <> s
to_string (unsupported s) = "unsupported: " <> s
to_string (bootstrap s) = "bootstrap error: " <> s
to_string (io s) = "io error: " <> s
