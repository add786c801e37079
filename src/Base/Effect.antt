-- ===== src/Base/Effect.antt =====
-- Go's `error` as a value, and stateful code that can fail: a state survives an error.
use Prim.Native.String.{String, ◌++◌ as ◌<>◌}
use mathlib.Core.Path.{◌≡◌, refl}
use mathlib.Core.Bool.{Bool, true, false}
use mathlib.Core.Option.{Option, none, some}

-- An `error`: its message, and whether `errors.Is(err, os.ErrNotExist)` holds of it.
pub data Err : Type 0 where
  failure : String → Err
  not_exist : String → Err

-- `err.Error()`
unfoldable pub message : Err → String
message (failure m) = m
message (not_exist m) = m

-- `fmt.Errorf("...: %w", err)`
unfoldable pub wrap : String → Err → Err
wrap prefix (failure m) = failure (prefix <> m)
wrap prefix (not_exist m) = not_exist (prefix <> m)

-- A Go result `(value, error)`.
pub data Result {ℓ} (A : Type ℓ) : Type ℓ where
  ok : A → Result A
  err : Err → Result A

abbrev pub bind_result {ℓ κ} : {A : Type ℓ} {B : Type κ} → Result A → (A → Result B) → Result B
bind_result (ok a) f = f a
bind_result (err e) f = err e

abbrev pub is_ok {ℓ} : {A : Type ℓ} → Result A → Bool
is_ok (ok _) = true
is_ok (err _) = false

-- A method over the state `S` that may return an error.
abbrev pub M : Type 0 → Type 0 → Type 0
M S A = S → Result A × S

infixl 5 ◌>>=◌ ◌>>◌
abbrev pub ◌>>=◌ : {S A B : Type 0} → M S A → (A → M S B) → M S B
◌>>=◌ m f s = let (r, s') = m s in elim r [ ok a ↦ f a s' | err e ↦ (err e, s') ]

abbrev pub ◌>>◌ : {S B : Type 0} → M S (Unit {0}) → M S B → M S B
◌>>◌ m k = m >>= λ _. k

-- `return nil`
abbrev pub done : {S : Type 0} → M S (Unit {0})
done s = (ok tt, s)

abbrev pub return : {S A : Type 0} → A → M S A
return a s = (ok a, s)

abbrev pub fail : {S A : Type 0} → Err → M S A
fail e s = (err e, s)

-- A result computed without the state.
abbrev pub lift : {S A : Type 0} → Result A → M S A
lift r s = (r, s)

-- `if err == nil`, for a method that returns only an error.
abbrev pub to_result : Option Err → Result (Unit {0})
to_result none = ok tt
to_result (some e) = err e

-- Inversion of a successful bind.
pub bind_result-eq-ok {ℓ κ} :
    {A : Type ℓ} {B : Type κ} (m : Result A) (f : A → Result B) {b : B}
    → bind_result m f ≡ ok b
    → (a : A) × (m ≡ ok a) × (f a ≡ ok b)
bind_result-eq-ok (ok a) f h = (a, refl, h)
bind_result-eq-ok (err e) f h = cc
