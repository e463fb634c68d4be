-- ===== src/Quorum/Gate/Conditions.antt =====
-- What the readiness gate holds and how it is written into the conditions of a pod.
use typesense_operator.Base.{
  codes, text_eq, text_eq_refl, ◌≡◌, refl, ◌↔◌, Bool, true, false, not, List, [], ◌∷◌, count_if,
  keep, arith,
}
use typesense_operator.Base.Exec.{Result, ok, err}
use typesense_operator.Api.{PodCondition}
use typesense_operator.Node.{NodeStatus, NodeHealth}
use typesense_operator.Quorum.Gate.{
  gate_condition, gate_reason_text, node_not_recoverable, replace_condition, updated_conditions,
}

-- Whether a condition is of the kind of another.
abbrev pub has_kind_of : PodCondition → PodCondition → Bool
has_kind_of condition c = text_eq c.kind condition.kind

module _ (condition : PodCondition) where
  count-replace_found :
      (conds : List PodCondition)
      → count_if (has_kind_of condition) (replace_condition condition true conds) ≡ 0
  unfolding replace_condition
  count-replace_found [] = refl
  count-replace_found (c ∷ conds) = ground (arith, count-replace_found conds)

  count-replace :
      (conds : List PodCondition)
      → count_if (has_kind_of condition) (replace_condition condition false conds) ≡ 1
  unfolding replace_condition
  count-replace [] = ground (arith, text_eq_refl condition.kind)
  count-replace (c ∷ conds) =
      ground (arith, text_eq_refl condition.kind, count-replace conds, count-replace_found conds)

  keep-replace_found :
      (conds : List PodCondition)
      → keep (λ c. not (has_kind_of condition c)) (replace_condition condition true conds)
        ≡ keep (λ c. not (has_kind_of condition c)) conds
  unfolding replace_condition
  keep-replace_found [] = refl
  keep-replace_found (c ∷ conds) = ground (arith, keep-replace_found conds)

  keep-replace :
      (conds : List PodCondition)
      → keep (λ c. not (has_kind_of condition c)) (replace_condition condition false conds)
        ≡ keep (λ c. not (has_kind_of condition c)) conds
  unfolding replace_condition
  keep-replace [] = ground (arith, text_eq_refl condition.kind)
  keep-replace (c ∷ conds) =
      ground (arith, text_eq_refl condition.kind, keep-replace conds, keep-replace_found conds)

  replace_found-replace_found :
      (conds : List PodCondition)
      → replace_condition condition true (replace_condition condition true conds)
        ≡ replace_condition condition true conds
  unfolding replace_condition
  replace_found-replace_found [] = refl
  replace_found-replace_found (c ∷ conds) = ground (arith, replace_found-replace_found conds)

  replace-replace :
      (conds : List PodCondition)
      → replace_condition condition false (replace_condition condition false conds)
        ≡ replace_condition condition false conds
  unfolding replace_condition
  replace-replace [] = ground (arith, text_eq_refl condition.kind)
  replace-replace (c ∷ conds) =
      ground (
        arith,
        text_eq_refl condition.kind,
        replace-replace conds,
        replace_found-replace_found conds,
      )

-- After the update a pod has exactly one condition of the written kind, its other conditions are
-- as before and in the same order, and a second update changes nothing.
pub updated_conditions_lem :
    (condition : PodCondition) (conds : List PodCondition)
    → (count_if (has_kind_of condition) (updated_conditions condition conds) ≡ 1)
      × (keep (λ c. not (has_kind_of condition c)) (updated_conditions condition conds)
          ≡ keep (λ c. not (has_kind_of condition c)) conds)
      × (updated_conditions condition (updated_conditions condition conds)
          ≡ updated_conditions condition conds)
unfolding updated_conditions
updated_conditions_lem condition conds =
    (count-replace condition conds, keep-replace condition conds, replace-replace condition conds)

gate_status :
    (status : NodeStatus) (h : NodeHealth)
    → ((gate_condition status (ok h)).status ≡ codes "True") ↔ (h.healthy ≡ true)
unfolding gate_condition
gate_status status h = ground arith

gate_reason :
    (status : NodeStatus) (h : NodeHealth)
    → text_eq (gate_condition status (ok h)).reason (gate_reason_text node_not_recoverable) ≡ false
unfolding gate_condition text_eq
gate_reason status h = ground arith

-- A node's gate is `True` exactly when its health could be read and is good. Its reason is never
-- `NodeNotRecoverable`, not even when the node reports that it is out of memory or of disk: the
-- assignment of that reason is always overwritten.
pub gate_condition_lem :
    (status : NodeStatus) (health : Result NodeHealth)
    → (((gate_condition status health).status ≡ codes "True")
        ↔ ((h : NodeHealth) × (health ≡ ok h) × (h.healthy ≡ true)))
      × (text_eq (gate_condition status health).reason (gate_reason_text node_not_recoverable)
          ≡ false)
unfolding gate_condition text_eq
gate_condition_lem status (err e) = ((λ h. cc, λ h. cc (h.1)), refl)
gate_condition_lem status (ok h) = (
  (λ t. (h, refl, (gate_status status h).0 t), λ g. (gate_status status h).1 (ground arith)),
  gate_reason status h,
)
