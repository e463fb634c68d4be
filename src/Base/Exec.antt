-- ===== src/Base/Exec.antt =====
-- Calls that may fail, and actions that read and write a state.
pub mod Rules
use mathlib.Core.Path.{◌≡◌, refl}
use mathlib.Core.Logic.{◌⊎◌, inl, inr}
use mathlib.Core.Option.{Option, none, some}
use mathlib.Core.List.{List, [], ◌∷◌, ◌++◌}
use native.Mathlib.Omega.{arith}
use typesense_operator.Base.Strings.{Text, codes}

-- Go's `error`: `apierrors.IsNotFound` tells the first kind from the others. A panic ends the pass
-- and becomes its error, since controller-runtime recovers it.
pub data Error : Type 0 where
  not_found : Text → Error
  other : Text → Error
  panic : Text → Error

pub data Result {ℓ} (A : Type ℓ) : Type ℓ where
  ok : A → Result A
  err : Error → Result A

-- `xs[0]`
unfoldable pub first {ℓ} : {A : Type ℓ} → List A → Result A
first [] = err (panic (codes "index out of range"))
first (x ∷ xs) = ok x

-- `*p`
unfoldable pub deref {ℓ} : {A : Type ℓ} → Option A → Result A
deref none = err (panic (codes "invalid memory address or nil pointer dereference"))
deref (some a) = ok a

pub deref_lem {ℓ} : {A : Type ℓ} (p : Option A) {a : A} → deref p ≡ ok a → p ≡ some a
unfolding deref
deref_lem none h = absurd (ground arith)
deref_lem (some b) h = ground arith

-- The next step of a computation that may panic.
abbrev pub and_then {ℓ κ} : {A : Type ℓ} {B : Type κ} → Result A → (A → Result B) → Result B
and_then (ok a) f = f a
and_then (err e) f = err e

-- `fmt.Errorf("…: %w", err)`, which keeps what `apierrors.IsNotFound` tells.
unfoldable pub in_context : Text → Error → Error
in_context msg (not_found m) = not_found (msg ++ (codes ": " ++ m))
in_context msg (other m) = other (msg ++ (codes ": " ++ m))
in_context msg (panic m) = panic m

-- What `Get` found: `none` where `apierrors.IsNotFound` tells that there is no such object.
unfoldable pub found {ℓ} : {A : Type ℓ} → Result A → Result (Option A)
found (ok a) = ok (some a)
found (err (not_found m)) = ok none
found (err (other m)) = err (other m)
found (err (panic m)) = err (panic m)

pub ok-injective {ℓ} : {A : Type ℓ} {a b : A} → ok a ≡ ok b → a ≡ b
ok-injective h = cc

-- To split on a computed result and keep the equation.
pub Result-cases {ℓ} :
    {A : Type ℓ} (r : Result A) → ((e : Error) × (r ≡ err e)) ⊎ ((a : A) × (r ≡ ok a))
Result-cases (ok a) = inr (a, refl)
Result-cases (err e) = inl (e, refl)

abbrev pub Exec : Type 0 → Type 0 → Type 0
Exec S A = S → A × S

module _ {S : Type 0} where
  unfoldable pub pure : {A : Type 0} → A → Exec S A
  pure a s = (a, s)

  infixl 10 ◌>>=◌ ◌>>◌
  unfoldable pub ◌>>=◌ : {A B : Type 0} → Exec S A → (A → Exec S B) → Exec S B
  unfolding pure
  ◌>>=◌ m f s = let (a, t) = m s in f a t

  abbrev pub ◌>>◌ : {A B : Type 0} → Exec S A → Exec S B → Exec S B
  m >> n = m >>= λ _. n

  -- What follows a call: `if err != nil { … }`, or the rest of the function.
  unfoldable pub on_result :
      {A B : Type 0} → Result A → (Error → Exec S B) → (A → Exec S B) → Exec S B
  on_result (ok a) fail rest = rest a
  on_result (err e) fail rest = fail e

  -- `a, err := m; if err != nil { return fail(err) }`, and the rest of the function.
  abbrev pub or_return :
      {A B : Type 0} → Exec S (Result A) → (Error → Exec S B) → (A → Exec S B) → Exec S B
  or_return m fail rest = m >>= λ r. on_result r fail rest

  -- `if err := m; err != nil { return err }`, in a function that returns a value and an error.
  abbrev pub attempt :
      {A B : Type 0} → Exec S (Result A) → (A → Exec S (Result B)) → Exec S (Result B)
  attempt m rest = or_return m (λ e. pure (err e)) rest

  -- `if err != nil { return err }` after a call that is not an action.
  abbrev pub check : {A B : Type 0} → Result A → (A → Exec S (Result B)) → Exec S (Result B)
  check r rest = on_result r (λ e. pure (err e)) rest
