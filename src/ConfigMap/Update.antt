-- ===== src/ConfigMap/Update.antt =====
-- `ReconcileConfigMap`, `createConfigMap`, `updateConfigMap` and `deleteConfigMap`.
pub mod Again
use typesense_operator.Base.{
  Text, codes, text_eq, join, ℕ, Bool, true, false, not, ◌||◌, Option, none, some, List, [], ◌∷◌,
  length, if◌then◌else◌, ◌==◌,
}
use typesense_operator.Base.Dict.{Dict, get_or}
use typesense_operator.Base.Exec.{
  Error, not_found, other, panic, Result, ok, err, pure, ◌>>=◌, ◌>>◌, on_result, attempt, or_return,
}
use typesense_operator.Api.{
  ConfigMap, StatefulSet, TypesenseCluster, ObjectKey, stateful_set_key, config_map_key,
}
use typesense_operator.Api.Client.{
  Client, M, read, request, create_config_map as create, update_config_map as update,
  delete_config_map as delete,
}
use typesense_operator.ConfigMap.Nodes.{get_nodes}

-- The data of a config map with these nodes and fallback nodes.
unfoldable pub nodes_data : List Text → List Text → Dict Text
unfolding join
nodes_data nodes fallback =
    (codes "nodes", join (codes ",") nodes) ∷ (codes "fallback", join (codes ",") fallback) ∷ []

-- Whether either of the two lists differs.
unfoldable pub data_differs : Dict Text → Dict Text → Bool
unfolding text_eq
data_differs old new =
    not (text_eq (get_or [] (codes "nodes") old) (get_or [] (codes "nodes") new))
    || not (text_eq (get_or [] (codes "fallback") old) (get_or [] (codes "fallback") new))

-- What `updateConfigMap` returns beside the error.
pub record Updated : Type 0 where
  pub config_map : ConfigMap
  pub available_nodes : ℕ
  pub updated : Bool

module _ (C : Client) where
  unfoldable pub create_config_map : ObjectKey → TypesenseCluster → M C (Result ConfigMap)
  create_config_map key ts = attempt (get_nodes C ts ts.replicas true) λ nodes.
      let cm : ConfigMap = record {
        namespace = ts.namespace;
        name = key.name;
        entries = nodes_data nodes nodes;
      } in
      on_result (C.set_controller_reference ts cm) (λ e. pure (err e))
        λ owned. attempt (request C (create owned)) λ _. pure (ok owned)

  unfoldable pub delete_config_map : ConfigMap → M C (Result (Unit {0}))
  delete_config_map cm = request C (delete cm)

  -- The end of `updateConfigMap`, from line 126 on.
  unfoldable pub write_nodes : ConfigMap → List Text → List Text → M C (Result Updated)
  write_nodes cm nodes fallback =
      let desired : ConfigMap = record cm { entries = nodes_data nodes fallback } in
      let done : Bool → M C (Result Updated) = λ changed.
        pure (
          ok
            (record { config_map = desired; available_nodes = length nodes; updated = changed })) in
      if length nodes == 0
      then pure (err (other (codes "empty quorum configuration")))
      else if data_differs cm.entries desired.entries
      then (attempt (request C (update desired)) λ _. done true)
      else done false

  -- A stateful set that is gone takes the config map with it; the error comes back all the same.
  unfoldable pub without_stateful_set : ConfigMap → Error → M C (Result Updated)
  without_stateful_set cm (not_found m) =
      or_return (delete_config_map cm) (λ e. pure (err e)) λ _. pure (err (not_found m))
  without_stateful_set cm (other m) = pure (err (other m))
  without_stateful_set cm (panic m) = pure (err (panic m))

  -- `updateConfigMap`; its argument `resizeOp` only chooses what is logged.
  unfoldable pub update_config_map :
      TypesenseCluster → ConfigMap → Option ℕ → Bool → M C (Result Updated)
  update_config_map ts cm replicas resize_op =
      or_return (read C (C.get_stateful_set (stateful_set_key ts))) (without_stateful_set cm) λ _.
        let size : ℕ = elim replicas [ none ↦ ts.replicas | some n ↦ n ] in
        attempt (get_nodes C ts size false)
          λ nodes. attempt (get_nodes C ts size true) λ fallback. write_nodes cm nodes fallback

  unfoldable pub create_missing : TypesenseCluster → Error → M C (Result (Option Bool))
  create_missing ts (not_found m) =
      attempt (create_config_map (config_map_key ts) ts) λ _. pure (ok none)
  create_missing ts (other m) = pure (err (other m))
  create_missing ts (panic m) = pure (err (panic m))

  -- `ReconcileConfigMap`: `none` is the nil pointer of a config map that was just created. Beside
  -- an error the value is left out, since `Reconcile` does not read it.
  unfoldable pub reconcile_config_map : TypesenseCluster → M C (Result (Option Bool))
  reconcile_config_map ts =
      or_return (read C (C.get_config_map (config_map_key ts))) (create_missing ts)
        λ cm. attempt (update_config_map ts cm none false) λ u. pure (ok (some u.updated))
