-- ===== src/Base/Number.antt =====
-- `%d` and `strconv.Atoi`.
pub mod Laws
use Prim.Native.Nat.{ℕ, zero, suc, ◌+◌, ◌-◌, ◌*◌, ◌/◌, ◌%◌, ◌^◌}
use mathlib.Core.Bool.{Bool, true, false, ◌&&◌}
use mathlib.Core.Option.{Option, none, some}
use mathlib.Core.List.{List, [], ◌∷◌, ◌++◌}
use typesense_operator.Base.Tests.{◌==◌, ltb, leb, if◌then◌else◌}
use typesense_operator.Base.Strings.{Text}
use typesense_operator.Base.Int.{ℤ, pos, negsuc, sub_ℕ}

-- The digits of `n`, the last first; a number below `10 ^ f` needs no more than `f` rounds.
digits_of : ℕ → ℕ → Text → Text
digits_of zero n acc = acc
digits_of (suc f) n acc =
    let rest = digits_of f (n / 10) (((n % 10) + 48) ∷ acc) in
    if ltb n 10 then (n + 48) ∷ acc else rest

-- `%d` of a number that is not negative.
unfoldable pub decimal : ℕ → Text
unfolding digits_of
decimal n = digits_of (suc n) n []

-- `strconv.Itoa`
unfoldable pub itoa : ℤ → Text
unfolding decimal
itoa (pos n) = decimal n
itoa (negsuc n) = b'-' ∷ decimal (suc n)

digits_value : Text → ℕ → Option ℕ
digits_value [] acc = some acc
digits_value (c ∷ s) acc =
    let rest = digits_value s (acc * 10 + (c - 48)) in if leb 48 c && leb c 57 then rest else none

-- What `strconv.Atoi` returns: the number, and whether there was an error.
pub record Parsed : Type 0 where
  pub value : ℤ
  pub failed : Bool

abbrev syntax_error : Parsed
syntax_error = record { value = pos 0; failed = true }

-- On a number out of range the nearest `int64` comes back beside the error.
clip_pos : Option ℕ → Parsed
clip_pos none = syntax_error
clip_pos (some n) =
    if ltb n (2 ^ 63)
    then record { value = pos n; failed = false }
    else record { value = pos (2 ^ 63 - 1); failed = true }

clip_neg : Option ℕ → Parsed
clip_neg none = syntax_error
clip_neg (some n) =
    if leb n (2 ^ 63)
    then record { value = sub_ℕ 0 n; failed = false }
    else record { value = negsuc (2 ^ 63 - 1); failed = true }

-- A number without a sign.
unfoldable pub unsigned : Text → Option ℕ
unfolding digits_value
unsigned [] = none
unsigned (c ∷ s) = digits_value (c ∷ s) 0

unfoldable pub atoi : Text → Parsed
unfolding unsigned clip_pos clip_neg
atoi [] = syntax_error
atoi (c ∷ s) =
    if c == b'-'
    then clip_neg (unsigned s)
    else if c == b'+'
    then clip_pos (unsigned s)
    else clip_pos (unsigned (c ∷ s))
