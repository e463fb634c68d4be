-- ===== src/StatefulSet/Scale.antt =====
-- Scaling, and purging the pods.
use typesense_operator.Base.{codes, ℕ, ◌≡◌, refl, false, some, List, [], ◌∷◌, arith, if◌then◌else◌}
use typesense_operator.Base.Exec.{Error, ok, err, pure, ◌>>=◌, on_result}
use typesense_operator.Api.{Pod, StatefulSet, ObjectKey}
use typesense_operator.Api.Client.{
  Client, World, Write, read, request, update_stateful_set, delete_pod, event, record_event,
}
use typesense_operator.StatefulSet.{
  has_replicas, get_fresh_stateful_set, scale_stateful_set, delete_pods, purge_stateful_set_pods,
}

abbrev pub scaled : StatefulSet → ℕ → StatefulSet
scaled sts n = record sts { spec_replicas = some n }

module _ (C : Client) where
  -- `ScaleStatefulSet` sends at most one request: the stateful set that it read with the wanted
  -- replicas, if it has others. If it cannot be read, nothing is sent and the error comes back.
  pub scale_stateful_set_lem :
      (key : ObjectKey) (n : ℕ) (w : World C)
      → ((sts : StatefulSet)
          → (C.get_stateful_set key w.state).0 ≡ ok sts
          → (scale_stateful_set C key n w).1.writes ≡ (
              if has_replicas sts.spec_replicas n
              then w.writes
              else update_stateful_set (scaled sts n) ∷ w.writes))
        × ((e : Error)
            → (C.get_stateful_set key w.state).0 ≡ err e
            → ((scale_stateful_set C key n w).0 ≡ err e)
              × ((scale_stateful_set C key n w).1.writes ≡ w.writes))
  unfolding scale_stateful_set get_fresh_stateful_set read request ◌>>=◌ on_result pure
  scale_stateful_set_lem key n w = (λ sts h. ground arith, λ e h. ground arith)

  -- What the API server documents: a stateful set that was accepted is read back.
  abbrev pub ReadsBack : ObjectKey → Type 0
  ReadsBack key =
      (sts : StatefulSet) (s : C.State)
      → (C.send (update_stateful_set sts) s).0 ≡ ok tt
      → (C.get_stateful_set key (C.send (update_stateful_set sts) s).1).0 ≡ ok sts

  -- Where the API server reads accepted writes back and nothing else happens in between, scaling a
  -- second time to the same size succeeds and sends nothing.
  pub scale_stateful_set-again :
      (key : ObjectKey) (n : ℕ) (w : World C) {sts : StatefulSet}
      → ReadsBack key
      → (C.get_stateful_set key w.state).0 ≡ ok sts
      → has_replicas sts.spec_replicas n ≡ false
      → (scale_stateful_set C key n w).0 ≡ ok tt
      → let v = (scale_stateful_set C key n w).1 in
        ((scale_stateful_set C key n v).0 ≡ ok tt)
        × ((scale_stateful_set C key n v).1.writes ≡ v.writes)
  unfolding scale_stateful_set get_fresh_stateful_set read request ◌>>=◌ on_result pure
  scale_stateful_set-again key n w {sts} back found differs done =
      ground (arith, back (scaled sts n) (read C (C.get_stateful_set key) w).1.state)

  -- The requests that delete the pods, on top of earlier ones.
  abbrev pub deletions : List Pod → List Write → List Write
  deletions [] writes = writes
  deletions (pod ∷ pods) writes = deletions pods (delete_pod pod.namespace pod.name false ∷ writes)

  abbrev pub AcceptsAll : Type 0
  AcceptsAll = (r : Write) (s : C.State) → (C.send r s).0 ≡ ok tt

  delete_pods-all :
      AcceptsAll
      → (pods : List Pod) (w : World C)
      → ((delete_pods C pods w).0 ≡ ok tt)
        × ((delete_pods C pods w).1.writes ≡ deletions pods w.writes)
  unfolding delete_pods request ◌>>=◌ on_result pure
  delete_pods-all accepts [] w = (refl, refl)
  delete_pods-all accepts (pod ∷ pods) w = ground (
    arith,
    accepts (delete_pod pod.namespace pod.name false) w.state,
    delete_pods-all accepts pods (request C (delete_pod pod.namespace pod.name false) w).1,
  )

  -- A purge under an API server that accepts every request deletes each listed pod once, in the
  -- order of the list, and then records one event.
  pub purge_stateful_set_pods-all :
      AcceptsAll
      → (sts : StatefulSet) (w : World C) {pods : List Pod}
      → (C.list_pods sts.namespace sts.match_labels w.state).0 ≡ ok pods
      → ((purge_stateful_set_pods C sts w).0 ≡ ok tt)
        × ((purge_stateful_set_pods C sts w).1.writes
            ≡ event
                (codes "Warning")
                (codes "QuorumPurged")
                (C.to_title (codes "quorum has been purged"))
              ∷ deletions pods w.writes)
  unfolding purge_stateful_set_pods read request record_event ◌>>=◌ on_result pure
  purge_stateful_set_pods-all accepts sts w {pods} found = ground (
    arith,
    delete_pods-all accepts pods (read C (C.list_pods sts.namespace sts.match_labels) w).1,
  )
