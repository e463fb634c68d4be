-- ===== src/Utils/Maps.antt =====
-- What the helpers of utils.go compute.
use typesense_operator.Base.{
  Text, text_eq, text_eq_iff, contains_text, after_last, ℕ, zero, suc, ◌+◌, ◌≤◌, ◌≡◌, refl, inl,
  inr, Bool-cases, false, Option, none, some, List, [], ◌∷◌, ◌++◌, any, arith, if◌then◌else◌,
}
use typesense_operator.Base.Dict.{Dict, lookup, insert, lookup-insert}
use typesense_operator.Base.Strings.Laws.{IsFree}
use typesense_operator.Utils.{
  index_from, contains, copy_into, max_delay_per_replica_factor, get_delay_per_replica_factor,
  filter_map, get_image_tag,
}

abbrev pub get_elem? {ℓ} : {A : Type ℓ} → List A → ℕ → Option A
get_elem? [] i = none
get_elem? (x ∷ xs) zero = some x
get_elem? (x ∷ xs) (suc i) = get_elem? xs i

-- No value among the first `i` is `v`.
abbrev pub AbsentBefore : ℕ → List Text → Text → Type 0
AbsentBefore zero values v = Unit
AbsentBefore (suc i) [] v = Unit
AbsentBefore (suc i) (x ∷ values) v = (text_eq x v ≡ false) × AbsentBefore i values v

index_from_lem :
    (k : ℕ) (values : List Text) (v : Text) {i : ℕ}
    → index_from k values v ≡ some i
    → (j : ℕ) × (i ≡ k + j) × (get_elem? values j ≡ some v) × AbsentBefore j values v
unfolding index_from
index_from_lem k [] v h = absurd (ground arith)
index_from_lem k (x ∷ values) v {i} h = elim (Bool-cases (text_eq x v)) [
  | inl same ↦ (0, ground arith, ground (arith, text_eq_iff x v), tt)
  | inr differ ↦
      let (j, e, found, absent) = index_from_lem (k + 1) values v {i = i} (ground arith) in
      (suc j, omega arith, found, (differ, absent))
]

-- `contains` returns the index of the first occurrence.
pub contains_lem :
    (values : List Text) (v : Text) {i : ℕ}
    → contains values v ≡ some i
    → (get_elem? values i ≡ some v) × AbsentBefore i values v
unfolding contains
contains_lem values v {i} h =
    let (j, e, found, absent) = index_from_lem 0 values v {i = i} h in
    let same : i ≡ j = omega arith in rw same (found, absent)

-- `filterMap` keeps exactly the entries whose key contains none of the filters.
pub lookup-filter_map :
    (k : Text) (m : Dict Text) (filters : List Text)
    → lookup k (filter_map m filters) ≡ (if any (contains_text k) filters then none else lookup k m)
unfolding filter_map lookup
lookup-filter_map k [] filters = ground arith
lookup-filter_map k ((j, v) ∷ m) filters =
    ground (arith, text_eq_iff j k, lookup-filter_map k m filters)

-- No key is listed twice.
abbrev pub NodupKeys {ℓ} : {V : Type ℓ} → Dict V → Type ℓ
NodupKeys [] = Unit
NodupKeys ((k, _) ∷ m) = (lookup k m ≡ none) × NodupKeys m

-- Copying a map into another: the copied entries win, the others stay.
pub lookup-copy_into {ℓ} :
    {V : Type ℓ} (j : Text) (merged m : Dict V)
    → NodupKeys m
    → lookup j (copy_into merged m) ≡ elim (lookup j m) [ some v ↦ some v | none ↦ lookup j merged ]
unfolding copy_into lookup
lookup-copy_into j merged [] u = refl
lookup-copy_into j merged ((k, v) ∷ m) u = ground (
  arith,
  text_eq_iff k j,
  lookup-insert k j v merged,
  lookup-copy_into j (insert k v merged) m u.1,
)

-- The delay factor of a replica lies between 1 and 3, and is the size wherever that does.
pub get_delay_per_replica_factor_bounds :
    (size : ℕ)
    → (1 ≤ get_delay_per_replica_factor size)
      × (get_delay_per_replica_factor size ≤ max_delay_per_replica_factor)
      × (1 ≤ size → size ≤ max_delay_per_replica_factor → get_delay_per_replica_factor size ≡ size)
unfolding get_delay_per_replica_factor
get_delay_per_replica_factor_bounds size = ground arith

after_last-free : (c : ℕ) (s : Text) → IsFree c s → after_last c s ≡ none
unfolding after_last
after_last-free c [] h = refl
after_last-free c (x ∷ s) h = ground (arith, after_last-free c s h.1)

after_last-append : (c : ℕ) (a s : Text) → IsFree c s → after_last c (a ++ (c ∷ s)) ≡ some s
unfolding after_last
after_last-append c [] s h = ground (arith, after_last-free c s h)
after_last-append c (x ∷ a) s h = ground (arith, after_last-append c a s h)

-- The tag of an image is what follows its last colon, and the whole image where there is none.
pub get_image_tag_lem :
    (repository tag : Text)
    → IsFree b':' tag
    → (get_image_tag (repository ++ (b':' ∷ tag)) ≡ tag) × (get_image_tag tag ≡ tag)
unfolding get_image_tag
get_image_tag_lem repository tag h =
    ground (arith, after_last-append b':' repository tag h, after_last-free b':' tag h)
