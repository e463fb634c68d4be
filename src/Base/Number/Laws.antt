-- ===== src/Base/Number/Laws.antt =====
-- The digits that `%d` writes.
use Prim.Native.Nat.{◌<◌, ℕ, zero, suc, ◌+◌, ◌/◌, ◌%◌}
use mathlib.Core.List.{[], ◌∷◌}
use mathlib.Core.Path.{◌≡◌}
use mathlib.Core.Option.{some}
use native.Mathlib.Omega.{arith}
use typesense_operator.Base.Strings.{Text}
use typesense_operator.Base.Strings.Laws.{IsFree}
use typesense_operator.Base.Number.{digits_of, digits_value, decimal}

digits_of-IsFree : (f n : ℕ) (acc : Text) → IsFree b',' acc → IsFree b',' (digits_of f n acc)
unfolding digits_of
digits_of-IsFree zero n acc h = h
digits_of-IsFree (suc f) n acc h =
    ground (arith, digits_of-IsFree f (n / 10) (((n % 10) + 48) ∷ acc) (ground arith, h))

-- A decimal number has no comma.
pub decimal-IsFree : (n : ℕ) → IsFree b',' (decimal n)
unfolding decimal
decimal-IsFree n = digits_of-IsFree (suc n) n [] tt

digits_value-digits_of :
    (f n : ℕ) (acc : Text) → n < f → digits_value (digits_of f n acc) 0 ≡ digits_value acc n
unfolding digits_of digits_value
digits_value-digits_of zero n acc h = absurd (omega arith)
digits_value-digits_of (suc f) n acc h =
    ground (arith, digits_value-digits_of f (n / 10) (((n % 10) + 48) ∷ acc))

-- The rounds of `decimal` are enough: its digits are those of the number.
digits_value-decimal : (n : ℕ) → digits_value (decimal n) 0 ≡ some n
unfolding decimal digits_value
digits_value-decimal n = digits_value-digits_of (suc n) n [] (omega arith)
