-- ===== src/Base/Result.antt =====
-- A call that returns or throws, with the text of the error.
use mathlib.Core.Path.{◌≡◌, refl}
use mathlib.Core.Logic.{◌⊎◌, inl, inr}
use convira_sandbox.Base.Text.{Text}

pub data Result {ℓ} (A : Type ℓ) : Type ℓ where
  throw : (message : Text) → Result A
  ok : (value : A) → Result A

module _ {ℓ} {A : Type ℓ} where
  pub Result-cases :
      (call : Result A)
      → ((value : A) × (call ≡ ok value)) ⊎ ((message : Text) × (call ≡ throw message))
  Result-cases (throw message) = inr (message, refl)
  Result-cases (ok value) = inl (value, refl)

module _ {ℓ κ} {A : Type ℓ} {B : Type κ} where
  infixl 5 ◌>>=◌
  abbrev pub ◌>>=◌ : Result A → (A → Result B) → Result B
  throw message >>= next = throw message
  ok value >>= next = next value

  -- A sequence that returned has come through its first call.
  pub returned_through :
      (call : Result A) (next : A → Result B) {result : B}
      → (call >>= next) ≡ ok result
      → (value : A) × (call ≡ ok value) × (next value ≡ ok result)
  returned_through (throw message) next done = absurd (cc)
  returned_through (ok value) next done = (value, refl, done)

module _ {ℓ} {B : Type ℓ} where
  infixl 5 ◌>>◌
  abbrev pub ◌>>◌ : Result (Unit {0}) → Result B → Result B
  throw message >> next = throw message
  ok _ >> next = next
