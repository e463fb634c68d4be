-- ===== src/Quorum/Reconcile/Scaling.antt =====
-- Which requests `ReconcileQuorum` sends.
use typesense_operator.Base.{
  Text, ℕ, ◌≡◌, refl, ◌⊎◌, inl, Bool, true, false, Option, some, List, [], ◌∷◌, arith,
}
use typesense_operator.Base.Exec.{Error, not_found, other, panic, pure}
use typesense_operator.Base.Exec.Rules.{Keeps, Keeps-bind, Keeps-on_result}
use typesense_operator.Api.{Pod, PodCondition, ConfigMap, StatefulSet, TypesenseCluster, ObjectKey}
use typesense_operator.Api.Client.{
  Client, M, Write, update_config_map as update_cm, delete_config_map as delete_cm,
  update_stateful_set, delete_pod, patch_pod, patch_pod_status, event,
}
use typesense_operator.Api.Client.Trace.{Sent, sent_rules}
use typesense_operator.ConfigMap.Endpoints.{get_endpoint_slices_for_stateful_set}
use typesense_operator.ConfigMap.Force.{touch_pod, touch_pods, force_pods_config_map_update}
use typesense_operator.ConfigMap.Nodes
use typesense_operator.ConfigMap.Nodes.{get_live_nodes, get_nodes}
use typesense_operator.ConfigMap.Update
use typesense_operator.ConfigMap.Update.{Updated, delete_config_map, write_nodes, update_config_map}
use typesense_operator.Quorum.Reconcile.{downgrade_or_wait, restart_unscheduled}
use typesense_operator.Quorum.Resize.{reset_peers, purge_if_dead, downgrade_quorum}
use typesense_operator.StatefulSet.{
  get_fresh_stateful_set, scale_stateful_set, delete_pods, purge_stateful_set_pods,
  get_unscheduled_pods, restart_for, restart_pods, restart_unscheduled_pods,
}

-- The requests that a pass over the quorum may send: no config map is created, and the stateful set
-- is scaled to one replica or to those of the spec.
pub data IsAllowed (ts : TypesenseCluster) : Write → Type 0 where
  listing : (cm : ConfigMap) → IsAllowed ts (update_cm cm)
  orphan : (cm : ConfigMap) → IsAllowed ts (delete_cm cm)
  restart :
      (namespace name : Text) (background : Bool)
      → IsAllowed ts (delete_pod namespace name background)
  touch : (p q : Pod) → IsAllowed ts (patch_pod p q)
  gate : (p q : Pod) → IsAllowed ts (patch_pod_status p q)
  notice : (kind reason msg : Text) → IsAllowed ts (event kind reason msg)
  scale :
      (s : StatefulSet)
      → (s.spec_replicas ≡ some 1) ⊎ (s.spec_replicas ≡ some ts.replicas)
      → IsAllowed ts (update_stateful_set s)

pub ruleset allowed = (sent_rules, listing, orphan, restart, touch, gate, notice)

module _ (C : Client) (ts : TypesenseCluster) where
  abbrev pub IsTame : {A : Type 0} → M C A → Type 0
  IsTame m = Keeps (Sent C (IsAllowed ts)) m

  pub get_fresh-IsTame : (key : ObjectKey) → IsTame (get_fresh_stateful_set C key)
  unfolding get_fresh_stateful_set
  get_fresh-IsTame key = search allowed

  pub scale_stateful_set-IsTame :
      (key : ObjectKey) (n : ℕ) → (n ≡ 1) ⊎ (n ≡ ts.replicas) → IsTame (scale_stateful_set C key n)
  unfolding scale_stateful_set get_fresh_stateful_set
  scale_stateful_set-IsTame key n h = search (allowed, scale_to) depth 12
    where
      scale_to :
          (s : StatefulSet)
          → IsAllowed ts (update_stateful_set (record s { spec_replicas = some n }))
      scale_to s = scale _ (ground arith)

  delete_pods-IsTame : (pods : List Pod) → IsTame (delete_pods C pods)
  unfolding delete_pods
  delete_pods-IsTame [] = search allowed
  delete_pods-IsTame (pod ∷ pods) =
      Keeps-bind _ _ (search allowed) λ r. search (allowed, delete_pods-IsTame pods) depth 12

  pub purge-IsTame : (sts : StatefulSet) → IsTame (purge_stateful_set_pods C sts)
  unfolding purge_stateful_set_pods
  purge-IsTame sts = search (allowed, delete_pods-IsTame) depth 12

  restart_for-IsTame :
      (pod : Pod) (conds : List PodCondition) (b : Bool) → IsTame (restart_for C pod conds b)
  unfolding restart_for
  restart_for-IsTame pod [] b = search allowed
  restart_for-IsTame pod (c ∷ conds) b =
      Keeps-bind _ _ (search allowed depth 12) (restart_for-IsTame pod conds)

  restart_pods-IsTame : (pods : List Pod) (b : Bool) → IsTame (restart_pods C pods b)
  unfolding restart_pods
  restart_pods-IsTame [] b = search allowed
  restart_pods-IsTame (pod ∷ pods) b =
      Keeps-bind _ _ (search (allowed, restart_for-IsTame) depth 12) (restart_pods-IsTame pods)

  restart_found-IsTame :
      (pods : List Pod)
      → IsTame (elim pods [ [] ↦ pure tt | p ∷ ps ↦ restart_unscheduled_pods C (p ∷ ps) ])
  unfolding restart_unscheduled_pods
  restart_found-IsTame [] = search allowed
  restart_found-IsTame (p ∷ ps) = search (allowed, restart_pods-IsTame) depth 12

  pub restart_unscheduled-IsTame : (sts : StatefulSet) → IsTame (restart_unscheduled C sts)
  unfolding restart_unscheduled get_unscheduled_pods
  restart_unscheduled-IsTame sts =
      Keeps-bind _ _ (search allowed depth 12)
        λ r. Keeps-on_result r _ _ (λ e. search allowed) restart_found-IsTame

  touch_pod-IsTame : (pod : Pod) → IsTame (touch_pod C pod)
  unfolding touch_pod
  touch_pod-IsTame pod = search allowed depth 12

  touch_pods-IsTame : (pods : List Pod) → IsTame (touch_pods C pods)
  unfolding touch_pods
  touch_pods-IsTame [] = search allowed
  touch_pods-IsTame (pod ∷ pods) =
      Keeps-bind _ _ (touch_pod-IsTame pod) λ r. search (allowed, touch_pods-IsTame pods) depth 12

  force-IsTame : (t : TypesenseCluster) → IsTame (force_pods_config_map_update C t)
  unfolding force_pods_config_map_update
  force-IsTame t = search (allowed, touch_pods-IsTame) depth 12

  slices-IsTame : (sts : StatefulSet) → IsTame (get_endpoint_slices_for_stateful_set C sts)
  unfolding get_endpoint_slices_for_stateful_set
  slices-IsTame sts = search allowed depth 12

  live_nodes-IsTame : (t : TypesenseCluster) (sts : StatefulSet) → IsTame (get_live_nodes C t sts)
  unfolding get_live_nodes
  live_nodes-IsTame t sts = search (allowed, slices-IsTame) depth 12

  no_stateful_set-IsTame :
      (t : TypesenseCluster) (n : ℕ) (e : Error) → IsTame (Nodes.without_stateful_set C t n e)
  unfolding Nodes.without_stateful_set
  no_stateful_set-IsTame t n (not_found m) = search allowed depth 12
  no_stateful_set-IsTame t n (other m) = search allowed
  no_stateful_set-IsTame t n (panic m) = search allowed

  get_nodes-IsTame : (t : TypesenseCluster) (n : ℕ) (b : Bool) → IsTame (get_nodes C t n b)
  unfolding get_nodes
  get_nodes-IsTame t n true = search allowed
  get_nodes-IsTame t n false = search (allowed, live_nodes-IsTame, no_stateful_set-IsTame) depth 12

  write_nodes-IsTame :
      (cm : ConfigMap) (nodes fallback : List Text) → IsTame (write_nodes C cm nodes fallback)
  unfolding write_nodes
  write_nodes-IsTame cm nodes fallback = search allowed depth 12

  no_config_map-IsTame : (cm : ConfigMap) (e : Error) → IsTame (Update.without_stateful_set C cm e)
  unfolding Update.without_stateful_set delete_config_map
  no_config_map-IsTame cm (not_found m) = search allowed depth 12
  no_config_map-IsTame cm (other m) = search allowed
  no_config_map-IsTame cm (panic m) = search allowed

  pub update_config_map-IsTame :
      (t : TypesenseCluster) (cm : ConfigMap) (n : Option ℕ) (b : Bool)
      → IsTame (update_config_map C t cm n b)
  unfolding update_config_map
  update_config_map-IsTame t cm n b =
      search (allowed, get_nodes-IsTame, write_nodes-IsTame, no_config_map-IsTame) depth 16

  pub reset_peers-IsTame : (u : Updated) → IsTame (reset_peers C ts u)
  unfolding reset_peers
  reset_peers-IsTame u = search (allowed, force-IsTame) depth 12

  purge_if_dead-IsTame : (sts : StatefulSet) (h m : ℕ) → IsTame (purge_if_dead C sts h m)
  unfolding purge_if_dead
  purge_if_dead-IsTame sts h m = search (allowed, purge-IsTame) depth 12

  scale_to_one-IsTame : (key : ObjectKey) → IsTame (scale_stateful_set C key 1)
  scale_to_one-IsTame key = scale_stateful_set-IsTame key 1 (inl refl)

  downgrade_quorum-IsTame :
      (cm : ConfigMap) (key : ObjectKey) (h m : ℕ) → IsTame (downgrade_quorum C ts cm key h m)
  unfolding downgrade_quorum
  downgrade_quorum-IsTame cm key h m =
      search
        (
          allowed, get_fresh-IsTame, scale_to_one-IsTame, purge_if_dead-IsTame,
          update_config_map-IsTame, reset_peers-IsTame,
        )
        depth 20

  pub downgrade_or_wait-IsTame :
      (cm : ConfigMap) (key : ObjectKey) (h m : ℕ) → IsTame (downgrade_or_wait C ts cm key h m)
  unfolding downgrade_or_wait
  downgrade_or_wait-IsTame cm key h m = search (allowed, downgrade_quorum-IsTame) depth 12
