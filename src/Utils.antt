-- ===== src/Utils.antt =====
-- internal/controller/utils.go: the helpers that the other parts call.
pub mod Maps
pub mod Meta
use typesense_operator.Base.{
  Text, codes, text_eq, contains_text, after_last, ℕ, ◌+◌, ◌-◌, ◌*◌, Bool, true, false, ◌&&◌, ◌||◌,
  Option, none, some, List, [], ◌∷◌, ◌==◌, ltb, leb, if◌then◌else◌, any,
}
use typesense_operator.Base.Dict.{Dict, insert}

index_from : ℕ → List Text → Text → Option ℕ
index_from i [] value = none
index_from i (v ∷ values) value =
    let rest = index_from (i + 1) values value in if text_eq v value then some i else rest

-- `contains`: the index of the first occurrence, `none` for the source's `(-1, false)`.
unfoldable pub contains : List Text → Text → Option ℕ
unfolding index_from
contains values value = index_from 0 values value

abbrev pub is_member : List Text → Text → Bool
is_member values value = elim (contains values value) [ some i ↦ true | none ↦ false ]

-- `for k, v := range m { merged[k] = v }`
unfoldable pub copy_into {ℓ} : {V : Type ℓ} → Dict V → Dict V → Dict V
unfolding insert
copy_into merged [] = merged
copy_into merged ((k, v) ∷ m) = copy_into (insert k v merged) m

merge_onto : Dict Text → List (Dict Text) → Dict Text
unfolding copy_into
merge_onto merged [] = merged
merge_onto merged (m ∷ ms) = merge_onto (copy_into merged m) ms

-- `mergeLabels`
unfoldable pub merge_labels : List (Dict Text) → Dict Text
unfolding merge_onto
merge_labels maps = merge_onto [] maps

abbrev pub max_delay_per_replica_factor : ℕ
max_delay_per_replica_factor = 3

-- `getDelayPerReplicaFactor`
unfoldable pub get_delay_per_replica_factor : ℕ → ℕ
get_delay_per_replica_factor size =
    if size == 0
    then 1
    else if leb size max_delay_per_replica_factor
    then size
    else max_delay_per_replica_factor

-- `filterMap`: the entries whose key holds none of the filters.
unfoldable pub filter_map : Dict Text → List Text → Dict Text
unfolding contains_text
filter_map [] filters = []
filter_map ((k, v) ∷ m) filters =
    let rest = filter_map m filters in if any (contains_text k) filters then rest else (k, v) ∷ rest

-- `getImageTag`
unfoldable pub get_image_tag : Text → Text
unfolding after_last
get_image_tag image = elim (after_last b':' image) [ some tag ↦ tag | none ↦ image ]

abbrev is_digit : ℕ → Bool
is_digit c = leb 48 c && leb c 57

-- An octet and the dot behind it, at the front: the rest of the text. Three digits are an octet
-- if they are at most 255, fewer always.
octet_dot : Text → Option Text
octet_dot (a ∷ b ∷ c ∷ d ∷ s) =
    if is_digit a && b == b'.'
    then some (c ∷ d ∷ s)
    else if is_digit a && is_digit b && c == b'.'
    then some (d ∷ s)
    else if is_digit a
        && is_digit b
        && is_digit c
        && d == b'.'
        && leb ((a - 48) * 100 + (b - 48) * 10 + (c - 48)) 255
    then some s
    else none
octet_dot (a ∷ b ∷ c ∷ []) =
    if is_digit a && b == b'.'
    then some (c ∷ [])
    else if is_digit a && is_digit b && c == b'.'
    then some []
    else none
octet_dot (a ∷ b ∷ []) = if is_digit a && b == b'.' then some [] else none
octet_dot _ = none

starts_with_digit : Text → Bool
starts_with_digit [] = false
starts_with_digit (c ∷ _) = is_digit c

-- `hasIP4Prefix`: three octets with their dots, and the beginning of a fourth.
unfoldable pub has_ip4_prefix : Text → Bool
unfolding octet_dot starts_with_digit
has_ip4_prefix s = elim (octet_dot s) [
  | none ↦ false
  | some t ↦ elim (octet_dot t) [
    | none ↦ false
    | some u ↦ elim (octet_dot u) [ none ↦ false | some v ↦ starts_with_digit v ]
  ]
]
