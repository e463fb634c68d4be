-- ===== src/Base/Exec/Rules.antt =====
-- Rules for actions, one for each way to build one: what they keep of the state, and what they
-- return whatever the state is.
use mathlib.Core.Path.{◌≡◌, refl}
use mathlib.Core.Bool.{Bool, true, false}
use typesense_operator.Base.Tests.{if◌then◌else◌}
use mathlib.Core.Logic.{inl, inr}
use native.Mathlib.Omega.{arith}
use typesense_operator.Base.Exec.{
  Error, Result, Result-cases, ok, err, Exec, pure, ◌>>=◌, on_result, attempt, check,
}

-- `m` keeps `P`.
pub record Keeps {S A : Type 0} (P : S → Type 0) (m : Exec S A) : Type 0 where
  pub at : (s : S) → P s → P (m s).1

-- Whatever the state, the result of `m` satisfies `P`.
pub record Returns {S A : Type 0} (P : A → Type 0) (m : Exec S A) : Type 0 where
  pub at : (s : S) → P (m s).0

module _ {S A B : Type 0} {P : S → Type 0} where
  pub Keeps-on_result :
      (r : Result A) (fail : Error → Exec S B) (rest : A → Exec S B)
      → ((e : Error) → Keeps P (fail e))
      → ((a : A) → Keeps P (rest a))
      → Keeps P (on_result r fail rest)
  unfolding on_result
  Keeps-on_result (err e) fail rest failing going = failing e
  Keeps-on_result (ok a) fail rest failing going = going a

  pub Keeps-bind :
      (call : Exec S A) (rest : A → Exec S B)
      → Keeps P call
      → ((a : A) → Keeps P (rest a))
      → Keeps P (call >>= rest)
  unfolding ◌>>=◌
  Keeps-bind call rest first going = record {
    at = λ s p. let (a, t) = call s in (going a).at t (first.at s p);
  }

module _ {S A B : Type 0} {P : S → Type 0} where
  pub Keeps-attempt :
      (call : Exec S (Result A)) (rest : A → Exec S (Result B))
      → Keeps P call
      → ((a : A) → Keeps P (rest a))
      → Keeps P (attempt call rest)
  unfolding pure
  Keeps-attempt call rest first going =
      Keeps-bind call _ first λ r. Keeps-on_result r _ rest (λ e. record { at = λ s p. p }) going

module _ {S A : Type 0} {P : S → Type 0} where
  pub Keeps-if :
      (test : Bool) (then_m else_m : Exec S A)
      → (test ≡ true → Keeps P then_m)
      → (test ≡ false → Keeps P else_m)
      → Keeps P (if test then then_m else else_m)
  Keeps-if true then_m else_m if_true if_false = if_true refl
  Keeps-if false then_m else_m if_true if_false = if_false refl

  pub Keeps-pure : (a : A) → Keeps P (pure a)
  unfolding pure
  Keeps-pure a = record { at = λ s p. p }

pub ruleset keeps_rules = (Keeps-pure, Keeps-if, Keeps-bind, Keeps-on_result)

module _ {S A : Type 0} {P : A → Type 0} where
  pub Returns-pure : (a : A) → P a → Returns {S = S} P (pure a)
  unfolding pure
  Returns-pure a h = record { at = λ s. h }

  pub Returns-if :
      (b : Bool) (m n : Exec S A)
      → (b ≡ true → Returns P m)
      → (b ≡ false → Returns P n)
      → Returns P (if b then m else n)
  Returns-if true m n km kn = km refl
  Returns-if false m n km kn = kn refl

module _ {S A B : Type 0} {P : B → Type 0} where
  pub Returns-bind :
      (m : Exec S A) (f : A → Exec S B) → ((a : A) → Returns P (f a)) → Returns P (m >>= f)
  unfolding ◌>>=◌
  Returns-bind m f kf = record { at = λ s. let (a, t) = m s in (kf a).at t }

  pub Returns-on_result :
      (r : Result A) (fail : Error → Exec S B) (rest : A → Exec S B)
      → ((e : Error) → Returns P (fail e))
      → ((a : A) → Returns P (rest a))
      → Returns P (on_result r fail rest)
  unfolding on_result
  Returns-on_result (ok a) fail rest kf kr = kr a
  Returns-on_result (err e) fail rest kf kr = kf e

  -- The rest may use what the first action returns.
  pub Returns-then :
      {Q : A → Type 0} (m : Exec S A) (f : A → Exec S B)
      → Returns Q m
      → ((a : A) → Q a → Returns P (f a))
      → Returns P (m >>= f)
  unfolding ◌>>=◌
  Returns-then m f km kf = record { at = λ s. let (a, t) = m s in (kf a (km.at s)).at t }

pub ruleset returns_rules = (Returns-pure, Returns-if, Returns-bind, Returns-on_result)

module _ {S A B : Type 0} where
  -- A chain of calls that succeeds: its first call did, and the rest ran from there.
  pub attempt-ok :
      (m : Exec S (Result A)) (rest : A → Exec S (Result B)) (s : S) {b : B}
      → (attempt m rest s).0 ≡ ok b
      → (a : A) × ((m s).0 ≡ ok a) × (attempt m rest s ≡ rest a (m s).1)
  unfolding ◌>>=◌ on_result pure
  attempt-ok m rest s {b} h = elim (Result-cases (m s).0) [
    | inl (e, p) ↦ absurd (ground arith)
    | inr (a, p) ↦ (a, p, rw p refl)
  ]

  pub check-ok :
      (r : Result A) (rest : A → Exec S (Result B)) (s : S) {b : B}
      → (check r rest s).0 ≡ ok b
      → (a : A) × (r ≡ ok a) × (check r rest s ≡ rest a s)
  unfolding on_result pure
  check-ok (ok a) rest s h = (a, refl, refl)
  check-ok (err e) rest s h = absurd (ground arith)
