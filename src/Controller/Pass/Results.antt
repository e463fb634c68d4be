-- ===== src/Controller/Pass/Results.antt =====
-- What a whole pass returns, whatever its parts do.
use typesense_operator.Base.{ℕ, ◌≡◌, ◌≢◌, inl, inr, Bool, Option, none, some, [], arith, Text}
use typesense_operator.Base.Dict.{get_or}
use typesense_operator.Base.Exec.{
  Error, not_found, other, panic, Result-cases, ok, pure, ◌>>=◌, on_result,
}
use typesense_operator.Api.{Secret, StatefulSet, TypesenseCluster, ObjectKey}
use typesense_operator.Api.Client.{Client, World, read}
use typesense_operator.Controller.{init_conditions, finish, report_update, requeue_after}
use typesense_operator.Controller.Pass.{
  Parts, fail_part, on_failure, reconcile_parts, reconcile_found, without_cluster, reconcile,
}
use typesense_operator.Controller.Pass.Stages.{
  reason_of, all_parts, nothing, Runs, reconcile_parts-Ends,
}
use typesense_operator.Controller.Report.{IsReported, finish-Reports}
use typesense_operator.Secret.{admin_api_key_secret_key_name}

module _ (C : Client) (parts : Parts C) where
  -- What the end of a pass on `t` makes of the parts' results in the world that they left. Without an
  -- older config map it is the bootstrap of the cluster; else the status of `u` reports what
  -- `ReconcileQuorum` returns for the stateful set and the key of this pass.
  abbrev pub Concludes :
      TypesenseCluster
      → Secret
      → Option Bool
      → StatefulSet × ℕ
      → World C
      → TypesenseCluster
      → ℕ
      → Type 0
  Concludes t s none set v u n = (u ≡ t) × (n ≡ 15)
  Concludes t s (some updated) set v u n =
      (n ≡ requeue_after updated set.1)
      × ((reported : TypesenseCluster) × ((report_update C t updated v).0 ≡ ok reported)
          × IsReported C reported (get_or [] admin_api_key_secret_key_name s.entries)
              (record { namespace = set.0.namespace; name = set.0.name })
              (report_update C t updated v).1 u)

  -- The parts of a pass on `t` succeed one after the other from `w`, and the pass concludes.
  abbrev pub IsPassed : TypesenseCluster → World C → TypesenseCluster → ℕ → Type 0
  IsPassed t w u n =
      (s : Secret) × (updated : Option Bool) × (set : StatefulSet × ℕ) × (v : World C) × Runs C
        parts t all_parts (nothing C parts t) w
        (record { key = some s; updated = some updated; set = some set }) v
      × Concludes t s updated set v u n

  fail_part_ne :
      (ts : TypesenseCluster) (reason : Text) (e : Error) (w : World C) (d : TypesenseCluster × ℕ)
      → (fail_part C ts reason e w).0 ≢ ok d
  unfolding fail_part ◌>>=◌ pure
  fail_part_ne ts reason e w d = λ h. cc

  on_failure_ne :
      (ts : TypesenseCluster) (reason : Text) (e : Error) (w : World C) (d : TypesenseCluster × ℕ)
      → (on_failure C ts reason e w).0 ≢ ok d
  unfolding on_failure pure
  on_failure_ne ts reason (panic m) w d = λ h. cc
  on_failure_ne ts reason (not_found m) w d = fail_part_ne ts reason (not_found m) w d
  on_failure_ne ts reason (other m) w d = fail_part_ne ts reason (other m) w d

  finish-Concludes :
      (t : TypesenseCluster) (s : Secret) (updated : Option Bool) (set : StatefulSet × ℕ)
      (v : World C) {u : TypesenseCluster} {n : ℕ}
      → (finish C t
          (get_or [] admin_api_key_secret_key_name s.entries)
          (record { namespace = set.0.namespace; name = set.0.name })
          updated
          set.1
          v).0
        ≡ ok (u, n)
      → Concludes t s updated set v u n
  unfolding finish pure
  finish-Concludes t s none set v h = (cc, cc)
  finish-Concludes t s (some updated) set v {u} {n} h =
      finish-Reports C t _ _ updated set.1 v {u = u} {n = n} h

  reconcile_parts-IsPassed :
      (t : TypesenseCluster) (w : World C) {u : TypesenseCluster} {n : ℕ}
      → (reconcile_parts C parts t w).0 ≡ ok (u, n)
      → IsPassed t w u n
  reconcile_parts-IsPassed t w {u} {n} h = elim (reconcile_parts-Ends C parts t w) [
    | inl (g, v, runs, (s, updated, set, e, r)) ↦
        (s, updated, set, v, rw e at runs, finish-Concludes t s updated set v {u = u} {n = n} cc)
    | inr (before, p, after, e, g, v, x, split, runs, fails, r) ↦
        absurd (on_failure_ne t (reason_of p) e x (u, n) cc)
  ]

  reconcile_found-IsPassed :
      (ts : TypesenseCluster) (w : World C) {u : TypesenseCluster} {n : ℕ}
      → (reconcile_found C parts ts w).0 ≡ ok (some (u, n))
      → (t : TypesenseCluster) × ((init_conditions C ts w).0 ≡ ok t)
        × IsPassed t (init_conditions C ts w).1 u n
  unfolding reconcile_found ◌>>=◌ on_result pure
  reconcile_found-IsPassed ts w {u} {n} h = elim (Result-cases (init_conditions C ts w).0) [
    | inl (e, p) ↦ absurd (ground arith)
    | inr (t, p) ↦
        let x = (init_conditions C ts w).1 in
        elim (Result-cases (reconcile_parts C parts t x).0) [
          | inl (e, q) ↦ absurd (ground arith)
          | inr (d, q) ↦ (t, p, reconcile_parts-IsPassed t x {u = u} {n = n} (ground arith))
        ]
  ]

  without_cluster_ne :
      (e : Error) (w : World C) (d : TypesenseCluster × ℕ) → (without_cluster C e w).0 ≢ ok (some d)
  unfolding without_cluster pure
  without_cluster_ne (not_found m) w d = λ h. cc
  without_cluster_ne (other m) w d = λ h. cc
  without_cluster_ne (panic m) w d = λ h. cc

  -- Whatever its parts do, a pass of `Reconcile` that returns a cluster and a time has read the
  -- cluster, and then its conditions were set up and all its parts succeeded, each in the world that
  -- the one before it left. If the config map was new, the cluster is returned as it is, due again
  -- after 15 seconds. Else the time is the one that belongs to the update, the report of the update
  -- succeeded, and in the world behind it the returned cluster's status reports what
  -- `ReconcileQuorum` returns there for the key of the secret and the stateful set that this pass
  -- found: the phase names that condition, the condition `Ready` that was set is `True` exactly for
  -- `QuorumReady`, and it is not the memory or disk issue.
  pub reconcile-IsDone :
      (key : ObjectKey) (w : World C) {u : TypesenseCluster} {n : ℕ}
      → (reconcile C parts key w).0 ≡ ok (some (u, n))
      → let x = (read C (C.get_cluster key) w).1 in
        (ts : TypesenseCluster) × ((C.get_cluster key w.state).0 ≡ ok ts)
        × ((t : TypesenseCluster) × ((init_conditions C ts x).0 ≡ ok t)
            × IsPassed t (init_conditions C ts x).1 u n)
  unfolding reconcile read ◌>>=◌ on_result
  reconcile-IsDone key w {u} {n} h = elim (Result-cases (C.get_cluster key w.state).0) [
    | inl (e, p) ↦ absurd (without_cluster_ne e _ (u, n) (rw p at h))
    | inr (ts, p) ↦ (ts, p, reconcile_found-IsPassed ts _ {u = u} {n = n} (rw p at h))
  ]
