-- ===== src/StatefulSet/Pods.antt =====
-- The pods that the scheduler could not place.
use typesense_operator.Base.{
  ◌≤◌, ◌≡◌, inl, inr, Bool-cases, true, List, [], ◌∷◌, ◌++◌, any, length, length-append, All, arith,
  if◌then◌else◌,
}
use typesense_operator.Api.{Pod, PodCondition}
use typesense_operator.ConfigMap.Nodes.{is_pending, is_unschedulable, count_unscheduled}
use typesense_operator.StatefulSet.{unscheduled_of, unscheduled_pods}

-- A pod that is pending and has a condition of the scheduler.
abbrev pub IsUnscheduled : Pod → Type 0
IsUnscheduled pod = (is_pending pod ≡ true) × (any is_unschedulable pod.conditions ≡ true)

All-append :
    (xs ys : List Pod) → All IsUnscheduled xs → All IsUnscheduled ys → All IsUnscheduled (xs ++ ys)
All-append [] ys hx hy = hy
All-append (x ∷ xs) ys hx hy = (hx.0, All-append xs ys hx.1 hy)

unscheduled_of-All :
    (pod : Pod) (conds : List PodCondition)
    → is_pending pod ≡ true
    → (any is_unschedulable conds ≡ true → any is_unschedulable pod.conditions ≡ true)
    → All IsUnscheduled (unscheduled_of pod conds)
unfolding unscheduled_of
unscheduled_of-All pod [] p h = tt
unscheduled_of-All pod (c ∷ conds) p h = elim (Bool-cases (is_unschedulable c)) [
  | inl yes_c ↦ rw yes_c ((p, h (rw yes_c)), unscheduled_of-All pod conds p (λ _. h (rw yes_c)))
  | inr no_c ↦ rw no_c (unscheduled_of-All pod conds p (λ a. h (rw (no_c, a))))
]

unscheduled_pods-All : (pods : List Pod) → All IsUnscheduled (unscheduled_pods pods)
unfolding unscheduled_pods
unscheduled_pods-All [] = tt
unscheduled_pods-All (pod ∷ pods) = elim (Bool-cases (is_pending pod)) [
  | inl p ↦ rw p (
      All-append _ _ (unscheduled_of-All pod pod.conditions p (λ a. a)) (unscheduled_pods-All pods))
  | inr np ↦ rw np (unscheduled_pods-All pods)
]

length-unscheduled_of :
    (pod : Pod) (conds : List PodCondition)
    → (if any is_unschedulable conds then 1 else 0) ≤ length (unscheduled_of pod conds)
unfolding unscheduled_of
length-unscheduled_of pod [] = omega arith
length-unscheduled_of pod (c ∷ conds) = ground (arith, length-unscheduled_of pod conds)

count-le-length : (pods : List Pod) → count_unscheduled pods ≤ length (unscheduled_pods pods)
unfolding count_unscheduled unscheduled_pods
count-le-length [] = omega arith
count-le-length (pod ∷ pods) = ground (
  arith,
  count-le-length pods,
  length-unscheduled_of pod pod.conditions,
  length-append {0} (unscheduled_of pod pod.conditions) (unscheduled_pods pods),
)

-- `GetUnscheduledPods` returns only pods that are pending and that the scheduler could not place, and
-- at least as many entries as `getNodes` counts.
pub unscheduled_pods_lem :
    (pods : List Pod)
    → All IsUnscheduled (unscheduled_pods pods)
      × (count_unscheduled pods ≤ length (unscheduled_pods pods))
unscheduled_pods_lem pods = (unscheduled_pods-All pods, count-le-length pods)
