-- ===== src/ConfigMap/Nodes/Size.antt =====
-- The number of replicas that is handed to `getNodes`.
use typesense_operator.Base.{ℕ, ◌≡◌, refl, Bool, true, false, arith}
use mathlib.Core.Path.{fun_ext}
use typesense_operator.Base.Exec.{Error, not_found, other, panic}
use typesense_operator.Api.{TypesenseCluster}
use typesense_operator.Api.Client.{Client}
use typesense_operator.ConfigMap.Nodes.{without_stateful_set, get_nodes}

module _ (C : Client) (ts : TypesenseCluster) where
  without_stateful_set-replicas :
      (m n : ℕ) (e : Error) → without_stateful_set C ts m e ≡ without_stateful_set C ts n e
  unfolding without_stateful_set
  without_stateful_set-replicas m n (not_found t) = ground arith
  without_stateful_set-replicas m n (other t) = refl
  without_stateful_set-replicas m n (panic t) = refl

  -- The nodes that `getNodes` finds do not depend on the number of replicas that it is given: a
  -- config map written for a quorum that is scaled to one replica lists the same nodes as one
  -- written for all replicas.
  pub get_nodes-replicas :
      (m n : ℕ) (bootstrapping : Bool)
      → get_nodes C ts m bootstrapping ≡ get_nodes C ts n bootstrapping
  unfolding get_nodes
  get_nodes-replicas m n true = refl
  get_nodes-replicas m n false = rw (fun_ext (without_stateful_set-replicas m n))
