-- ===== src/StatefulSet/Reconcile/Replicas.antt =====
-- What `ReconcileStatefulSet` does where the replicas differ, and where containers are missing.
use typesense_operator.Base.{
  Text, ℕ, ◌≡◌, ◌≢◌, refl, inl, inr, true, false, Option, none, some, length, ◌<◌, arith,
  if◌then◌else◌, Option-cases,
}
use typesense_operator.Base.Exec.{
  not_found, other, Result-cases, ok, err, panic, found, pure, ◌>>=◌, on_result,
}
use typesense_operator.Api.{StatefulSet, Condition, TypesenseCluster, stateful_set_key}
use typesense_operator.Api.Client.{Client, World, find, read}
use typesense_operator.Api.Semantic.{Semantic}
use typesense_operator.StatefulSet.Build.{build_stateful_set}
use typesense_operator.StatefulSet.Decision.{
  Verdict, plan_of, get_condition_ready, should_update_stateful_set,
  should_emergency_update_stateful_set,
}
use typesense_operator.StatefulSet.Decision.Laws.{
  should_emergency_update-replicas, should_update-scale_only, should_update-panics,
  should_emergency_update-short,
}
use typesense_operator.StatefulSet.Reconcile.{
  resize_stateful_set, carry_out, compare_and_carry_out, keep_stateful_set, reconcile_stateful_set,
}

module _ (C : Client) (E : Semantic) (ts : TypesenseCluster) where
  -- The world in which the desired stateful set is built: the present one has been read.
  abbrev pub looked : World C → World C
  looked w = (find C (C.get_stateful_set (stateful_set_key ts)) w).1

  reconcile_stateful_set-found :
      (w : World C) {sts : StatefulSet} {condition : Condition}
      → (C.get_stateful_set (stateful_set_key ts) w.state).0 ≡ ok sts
      → get_condition_ready ts.conditions ≡ some (some condition)
      → reconcile_stateful_set C E ts w ≡ keep_stateful_set C E ts sts (some condition) (looked w)
  unfolding reconcile_stateful_set find read found ◌>>=◌ on_result pure
  reconcile_stateful_set-found w {sts} {condition} g c = rw (g, c) refl

  -- An emergency leads to the comparison under every reason of the condition.
  keep-emergency :
      (sts : StatefulSet) (condition : Condition) (x : World C)
      → should_emergency_update_stateful_set E sts ts ≡ some true
      → keep_stateful_set C E ts sts (some condition) x ≡ compare_and_carry_out C E ts sts x
  unfolding keep_stateful_set on_result pure
  keep-emergency sts condition x e = ground arith

  compare_verdict :
      (sts : StatefulSet) (x : World C) {d : StatefulSet} {v : Verdict}
      → (build_stateful_set C (stateful_set_key ts) ts x).0 ≡ ok d
      → should_update_stateful_set E sts (some d) ts ≡ some v
      → compare_and_carry_out C E ts sts x
        ≡ carry_out C ts sts d (plan_of v) (build_stateful_set C (stateful_set_key ts) ts x).1
  unfolding compare_and_carry_out on_result pure ◌>>=◌
  compare_verdict sts x {d} {v} b u = rw (b, u) refl

  carry_out-scale_only :
      (sts d : StatefulSet) (v : Verdict) (y : World C)
      → v.scale_only ≡ true
      → carry_out C ts sts d (plan_of v) y
        ≡ (if v.update then (ok sts, y) else resize_stateful_set C ts d y)
  unfolding carry_out plan_of pure
  carry_out-scale_only sts d v y h = ground arith

  -- The stateful set exists with other replicas than the spec, the first condition of the cluster is
  -- `Ready`, the desired stateful set can be built and the comparison with it does not panic. Then,
  -- whatever the reason of the condition is, `ReconcileStatefulSet` scales the stateful set if the
  -- comparison records nothing else to update. If it records more, it returns the stateful set as it
  -- is, in the world that building left: with both kinds of change neither of its branches is taken.
  pub reconcile_stateful_set-replicas :
      (w : World C) {sts d : StatefulSet} {condition : Condition} {n : ℕ} {v : Verdict}
      → (C.get_stateful_set (stateful_set_key ts) w.state).0 ≡ ok sts
      → get_condition_ready ts.conditions ≡ some (some condition)
      → sts.spec_replicas ≡ some n
      → n ≢ ts.replicas
      → (build_stateful_set C (stateful_set_key ts) ts (looked w)).0 ≡ ok d
      → should_update_stateful_set E sts (some d) ts ≡ some v
      → let y = (build_stateful_set C (stateful_set_key ts) ts (looked w)).1 in
        reconcile_stateful_set C E ts w
        ≡ (if v.update then (ok sts, y) else resize_stateful_set C ts d y)
  reconcile_stateful_set-replicas w {sts} {d} {condition} {n} {v} g c r ne b u =
      let scale_only = should_update-scale_only E sts (some d) ts c r ne {v = v} u in
      rw
        (
          reconcile_stateful_set-found w {sts = sts} {condition = condition} g c,
          keep-emergency sts condition (looked w)
              (should_emergency_update-replicas E sts ts c r ne),
          compare_verdict sts (looked w) {d = d} {v = v} b u,
        )
        (carry_out-scale_only sts d v _ scale_only)

  -- Whatever comes of building the desired stateful set.
  compare-panics :
      (sts : StatefulSet) (x : World C)
      → ((desired : Option StatefulSet) → should_update_stateful_set E sts desired ts ≡ none)
      → (m : Text) × ((compare_and_carry_out C E ts sts x).0 ≡ err (panic m))
  unfolding compare_and_carry_out on_result pure ◌>>=◌
  compare-panics sts x h = elim (Result-cases (build_stateful_set C (stateful_set_key ts) ts x).0) [
    | inr (d, b) ↦ rw (b, h (some d)) (_, refl)
    | inl (not_found m, b) ↦ rw (b, h none) (_, refl)
    | inl (other m, b) ↦ rw (b, h none) (_, refl)
    | inl (panic m, b) ↦ rw b (m, refl)
  ]

  -- The stateful set exists with fewer than three containers, and the first condition of the cluster
  -- is `Ready`. Then `ReconcileStatefulSet` panics, whatever the reason of the condition, the
  -- replicas and the outcome of building the desired stateful set are.
  pub reconcile_stateful_set-panics :
      (w : World C) {sts : StatefulSet} {condition : Condition}
      → (C.get_stateful_set (stateful_set_key ts) w.state).0 ≡ ok sts
      → get_condition_ready ts.conditions ≡ some (some condition)
      → length sts.containers < 3
      → (m : Text) × ((reconcile_stateful_set C E ts w).0 ≡ err (panic m))
  unfolding keep_stateful_set on_result pure
  reconcile_stateful_set-panics w {sts} {condition} g c short =
      rw (reconcile_stateful_set-found w {sts = sts} {condition = condition} g c)
        (elim (Option-cases (should_emergency_update_stateful_set E sts ts)) [
          | inl e ↦ rw e (_, refl)
          | inr (true, e) ↦ rw (keep-emergency sts condition (looked w) e) (
              compare-panics sts (looked w)
                λ desired. should_update-panics E sts desired ts c (inl short))
          | inr (false, e) ↦ absurd (should_emergency_update-short E sts ts c short e)
        ])
