-- ===== src/Base/Strings/Laws.antt =====
-- Laws of the text functions: splitting what was joined, prefixes, white space.
use Prim.Native.Nat.{ℕ}
use mathlib.Core.Path.{◌≡◌, refl, sym, ◌∙◌, ap}
use mathlib.Core.Logic.{◌≢◌, ◌↔◌, inl, inr}
use mathlib.Core.Bool.{true, false, ◌&&◌, true≢false}
use mathlib.Core.List.{List, [], ◌∷◌, ◌++◌}
use native.Mathlib.Omega.{arith}
use typesense_operator.Base.Tests.{◌==◌, ==_iff, Bool-cases}
use typesense_operator.Base.Lists.{All, any}
use typesense_operator.Base.Strings.{
  Text, text_eq, text_eq_iff, has_prefix, contains_text, split, join, is_blank,
}

-- No byte of the text is `sep`.
abbrev pub IsFree : ℕ → Text → Type 0
IsFree sep = All (λ c. (c == sep) ≡ false)

pub IsFree-append : (sep : ℕ) (a b : Text) → IsFree sep a → IsFree sep b → IsFree sep (a ++ b)
IsFree-append sep [] b ha hb = hb
IsFree-append sep (x ∷ a) b ha hb = (ha.0, IsFree-append sep a b ha.1 hb)

split-free : (sep : ℕ) (a : Text) → IsFree sep a → split sep a ≡ a ∷ []
unfolding split
split-free sep [] h = refl
split-free sep (x ∷ a) h = rw (h.0, split-free sep a h.1)

split-append :
    (sep : ℕ) (a b : Text) → IsFree sep a → split sep (a ++ (sep ∷ [] ++ b)) ≡ a ∷ split sep b
unfolding split
split-append sep [] b h = rw (==_iff sep sep).1 refl
split-append sep (x ∷ a) b h = rw (h.0, split-append sep a b h.1)

-- Splitting undoes joining, for at least one part and parts without the separator.
pub split-join :
    (sep : ℕ) (part : Text) (parts : List Text)
    → All (IsFree sep) (part ∷ parts)
    → split sep (join (sep ∷ []) (part ∷ parts)) ≡ part ∷ parts
unfolding join
split-join sep part [] h = split-free sep part h.0
split-join sep part (next ∷ parts) h =
    split-append sep part _ h.0 ∙ ap (λ r. part ∷ r) (split-join sep next parts h.1)

pub is_blank-append : (a b : Text) → is_blank (a ++ b) ≡ (is_blank a && is_blank b)
unfolding is_blank
is_blank-append [] b = refl
is_blank-append (c ∷ a) b = ground (arith, is_blank-append a b)

pub is_blank-join :
    (sep part : Text) (parts : List Text)
    → is_blank part ≡ false
    → is_blank (join sep (part ∷ parts)) ≡ false
unfolding join
is_blank-join sep part [] h = h
is_blank-join sep part (next ∷ parts) h = rw (is_blank-append, h)

pub has_prefix-append : (p s : Text) → has_prefix (p ++ s) p ≡ true
unfolding has_prefix
has_prefix-append [] [] = refl
has_prefix-append [] (x ∷ s) = refl
has_prefix-append (c ∷ p) s = ground (arith, has_prefix-append p s)

contains_of_prefix : (t p : Text) → has_prefix t p ≡ true → contains_text t p ≡ true
unfolding contains_text
contains_of_prefix [] p h = h
contains_of_prefix (c ∷ t) p h = rw h

-- A text contains each of its prefixes.
pub contains_text-append : (p s : Text) → contains_text (p ++ s) p ≡ true
contains_text-append p s = contains_of_prefix (p ++ s) p (has_prefix-append p s)

-- No element has the name.
pub any-text_eq {ℓ} :
    {A : Type ℓ} (label : A → Text) (name : Text) (xs : List A)
    → (any (λ x. text_eq name (label x)) xs ≡ false) ↔ All (λ x. name ≢ label x) xs
any-text_eq label name [] = (λ _. tt, λ _. refl)
any-text_eq label name (x ∷ xs) =
    let rest = any-text_eq label name xs in
    let names = text_eq_iff name (label x) in
    elim (Bool-cases (text_eq name (label x))) [
      | inl same ↦ (λ h. absurd (true≢false (rw same at h)), λ h. absurd (h.0 (names.0 same)))
      | inr differs ↦ (
        λ h. (λ p. true≢false (sym (names.1 p) ∙ differs), rest.0 (rw differs at h)),
        λ h. rw differs (rest.1 h.1),
      )
    ]
