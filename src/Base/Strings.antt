-- ===== src/Base/Strings.antt =====
-- Go strings as lists of bytes, and what the operator uses of Go's `strings` and `sort` packages.
pub mod Laws
use Prim.Native.Nat.{ℕ, zero, suc, ◌-◌}
use Prim.Native.Char.{code}
use Prim.Native.String.{String}
use mathlib.Core.Path.{◌≡◌, refl, ap, ap₂}
use mathlib.Core.Logic.{◌↔◌}
use mathlib.Core.Bool.{Bool, true, false, ◌&&◌, ◌||◌}
use mathlib.Core.Option.{Option, none, some}
use mathlib.Core.List.{List, [], ◌∷◌, ◌++◌}
use native.Mathlib.Omega.{arith}
use typesense_operator.Base.Tests.{◌==◌, ltb, if◌then◌else◌, ==_iff}
use typesense_operator.Base.Lists.{length}

abbrev pub Text : Type 0
Text = List ℕ

-- The bytes of an ASCII literal.
abbrev pub codes : String → Text
codes String.[] = []
codes (String.◌∷◌ c s) = code c ∷ codes s

-- `a == b`
unfoldable pub text_eq : Text → Text → Bool
text_eq [] [] = true
text_eq [] (_ ∷ _) = false
text_eq (_ ∷ _) [] = false
text_eq (x ∷ xs) (y ∷ ys) = (x == y) && text_eq xs ys

pub text_eq_iff : (a b : Text) → (text_eq a b ≡ true) ↔ (a ≡ b)
unfolding text_eq
text_eq_iff [] [] = (λ _. refl, λ _. refl)
text_eq_iff [] (y ∷ ys) = (λ h. cc, λ h. cc)
text_eq_iff (x ∷ xs) [] = (λ h. cc, λ h. cc)
text_eq_iff (x ∷ xs) (y ∷ ys) = ground (arith, text_eq_iff xs ys)

pub text_eq_refl : (a : Text) → text_eq a a ≡ true
text_eq_refl a = (text_eq_iff a a).1 refl

-- `strings.HasPrefix(s, p)`
unfoldable pub has_prefix : Text → Text → Bool
has_prefix s [] = true
has_prefix [] (_ ∷ _) = false
has_prefix (x ∷ s) (y ∷ p) = (x == y) && has_prefix s p

-- `strings.Contains(s, sub)`
unfoldable pub contains_text : Text → Text → Bool
unfolding has_prefix
contains_text [] sub = has_prefix [] sub
contains_text (x ∷ s) sub = has_prefix (x ∷ s) sub || contains_text s sub

add_to_first : ℕ → List Text → List Text
add_to_first x [] = (x ∷ []) ∷ []
add_to_first x (y ∷ ys) = (x ∷ y) ∷ ys

-- `strings.Split(s, sep)` for a separator of one byte: never empty.
unfoldable pub split : ℕ → Text → List Text
unfolding add_to_first
split sep [] = [] ∷ []
split sep (x ∷ s) = if x == sep then [] ∷ split sep s else add_to_first x (split sep s)

-- `strings.Join(parts, sep)`
unfoldable pub join : Text → List Text → Text
join sep [] = []
join sep (x ∷ []) = x
join sep (x ∷ y ∷ parts) = x ++ (sep ++ join sep (y ∷ parts))

-- White space of ASCII, as `unicode.IsSpace` has it below 128.
abbrev is_space : ℕ → Bool
is_space c = (c == b' ') || ((ltb 8 c) && (ltb c 14))

-- `strings.TrimSpace(s) == ""`, for texts of ASCII.
unfoldable pub is_blank : Text → Bool
is_blank [] = true
is_blank (c ∷ s) = is_space c && is_blank s

-- `s[i:]` behind a prefix that is known to stand there.
abbrev pub drop_prefix : Text → Text → Text
drop_prefix [] s = s
drop_prefix (_ ∷ p) [] = []
drop_prefix (_ ∷ p) (_ ∷ s) = drop_prefix p s

-- `strings.Replace(s, old, "", 1)` for an `old` that is not empty.
unfoldable pub remove_first : Text → Text → Text
unfolding has_prefix
remove_first old [] = []
remove_first old (x ∷ s) =
    if has_prefix (x ∷ s) old then drop_prefix old (x ∷ s) else x ∷ remove_first old s

remove_from : Text → ℕ → Text → Text
unfolding has_prefix
remove_from old skip [] = []
remove_from old (suc skip) (x ∷ s) = remove_from old skip s
remove_from old zero (x ∷ s) = elim (has_prefix (x ∷ s) old) [
  | true ↦ remove_from old (length old - 1) s
  | false ↦ x ∷ remove_from old zero s
]

-- `strings.Replace(s, old, "", -1)` for an `old` that is not empty.
unfoldable pub remove_all : Text → Text → Text
unfolding remove_from
remove_all old s = remove_from old zero s

-- `strconv.ParseBool(s)`, which is false beside an error.
unfoldable pub parse_bool : Text → Bool
unfolding text_eq
parse_bool s =
    text_eq s (codes "1")
    || text_eq s (codes "t")
    || text_eq s (codes "T")
    || text_eq s (codes "TRUE")
    || text_eq s (codes "true")
    || text_eq s (codes "True")

-- The part before the first `c`; all of `s` where there is none.
unfoldable pub before_first : ℕ → Text → Text
before_first c [] = []
before_first c (x ∷ s) = let rest = before_first c s in if x == c then [] else x ∷ rest

-- `s[strings.LastIndex(s, c)+1:]`, which is all of `s` where `c` does not occur.
unfoldable pub after_last : ℕ → Text → Option Text
after_last c [] = none
after_last c (x ∷ s) = elim (after_last c s) [
  | some r ↦ some r
  | none ↦ if x == c then some s else none
]

-- `a < b` on texts, byte by byte.
unfoldable pub text_lt : Text → Text → Bool
text_lt [] [] = false
text_lt [] (_ ∷ _) = true
text_lt (_ ∷ _) [] = false
text_lt (x ∷ xs) (y ∷ ys) = ltb x y || ((x == y) && text_lt xs ys)

insert_text : Text → List Text → List Text
insert_text a [] = a ∷ []
insert_text a (b ∷ bs) = let rest = insert_text a bs in if text_lt b a then b ∷ rest else a ∷ b ∷ bs

-- `sort.Strings`
unfoldable pub sort_texts : List Text → List Text
unfolding insert_text text_lt
sort_texts [] = []
sort_texts (a ∷ as_) = insert_text a (sort_texts as_)
