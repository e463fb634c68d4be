-- ===== src/ConfigMap/RoundTrip.antt =====
-- The nodes that `createConfigMap` writes are the nodes that `getQuorum` and `hasBootstrapValues`
-- read.
use typesense_operator.Base.{
  Text, codes, contains_text, text_eq, is_blank, ℕ, zero, suc, ◌<◌, ◌≡◌, refl, ◌∙◌, ap, true, false,
  inl, inr, List, [], ◌∷◌, All, length, arith,
}
use typesense_operator.Base.Dict.{lookup}
use typesense_operator.Base.Exec.{Result-cases, ok, pure, ◌>>=◌, on_result}
use typesense_operator.Base.Strings.Laws.{IsFree, split-join, is_blank-join}
use typesense_operator.Api.{ConfigMap, TypesenseCluster, ObjectKey, cluster_stateful_set}
use typesense_operator.Api.Client.{Client, World, request}
use typesense_operator.ConfigMap.Force.{listed_bootstrap_values, has_bootstrap_values}
use typesense_operator.ConfigMap.Nodes.{get_fallback_nodes, get_nodes}
use typesense_operator.ConfigMap.Nodes.Fallback.{
  node_list, length-node_list, node_list-IsFree, not_blank, contains-node, get_fallback_nodes_iff,
}
use typesense_operator.ConfigMap.Update.{nodes_data, create_config_map}
use typesense_operator.Quorum.Members.{listed_nodes, nodes_of}

-- `getQuorum` reads the list that was written, for nodes without a comma of which the first is not
-- blank.
pub nodes_of-nodes_data :
    (ts : TypesenseCluster) (cm : ConfigMap) (node : Text) (nodes fallback : List Text)
    → cm.entries ≡ nodes_data (node ∷ nodes) fallback
    → All (IsFree b',') (node ∷ nodes)
    → is_blank node ≡ false
    → nodes_of ts cm ≡ ok (node ∷ nodes)
unfolding nodes_of nodes_data text_eq listed_nodes lookup
nodes_of-nodes_data ts cm node nodes fallback e free solid =
    ap (λ d. listed_nodes ts (lookup (codes "nodes") d)) e
    ∙ rw (is_blank-join (codes ",") node nodes solid, split-join b',' node nodes free)

solid-ne-nil : (raw : Text) → is_blank raw ≡ false → text_eq raw [] ≡ false
unfolding is_blank text_eq
solid-ne-nil [] h = cc
solid-ne-nil (c ∷ raw) h = refl

-- The first of the fallback nodes contains the name of the stateful set, and so does the list.
has_bootstrap_values-nodes_data :
    (ts : TypesenseCluster) (cm : ConfigMap) (node : Text) (nodes fallback : List Text)
    → cm.entries ≡ nodes_data (node ∷ nodes) fallback
    → All (IsFree b',') (node ∷ nodes)
    → is_blank node ≡ false
    → contains_text node (cluster_stateful_set ts) ≡ true
    → has_bootstrap_values ts cm ≡ ok true
unfolding has_bootstrap_values listed_bootstrap_values nodes_data text_eq lookup
has_bootstrap_values-nodes_data ts cm node nodes fallback e free solid found =
    ap (λ d. listed_bootstrap_values ts (lookup (codes "nodes") d)) e
    ∙ rw (
      solid-ne-nil _ (is_blank-join (codes ",") node nodes solid),
      split-join b',' node nodes free,
      found,
    )

module _ (C : Client) (ts : TypesenseCluster) where
  abbrev made_with : ObjectKey → List Text → ConfigMap
  made_with key nodes = record {
    namespace = ts.namespace;
    name = key.name;
    entries = nodes_data nodes nodes;
  }

  -- The data of the config map that `createConfigMap` returns.
  created_nodes :
      (key : ObjectKey) (w : World C) {cm : ConfigMap}
      → ((made owned : ConfigMap)
          → C.set_controller_reference ts made ≡ ok owned
          → owned.entries ≡ made.entries)
      → (create_config_map C key ts w).0 ≡ ok cm
      → (nodes : List Text) × (get_fallback_nodes ts ≡ ok nodes)
        × (cm.entries ≡ nodes_data nodes nodes)
  unfolding create_config_map get_nodes ◌>>=◌ on_result pure request
  created_nodes key w {cm} keeps h = elim (Result-cases (get_fallback_nodes ts)) [
    | inl (e, p) ↦ absurd (ground arith)
    | inr (nodes, p) ↦ (
      nodes,
      p,
      elim (Result-cases (C.set_controller_reference ts (made_with key nodes))) [
        | inl (e, q) ↦ absurd (ground arith)
        | inr (owned, q) ↦ ground (arith, keeps (made_with key nodes) owned q)
      ],
    )
  ]

  -- The config map that `createConfigMap` returns for a cluster with at least one replica and a name
  -- without a comma: `getQuorum` reads from it one node for each replica of the spec, those of
  -- the pods by their number, and `hasBootstrapValues` finds that the nodes still have to start.
  -- Setting the owner must leave the data alone.
  pub create_config_map-nodes_of :
      (key : ObjectKey) (w : World C) {cm : ConfigMap}
      → ((made owned : ConfigMap)
          → C.set_controller_reference ts made ≡ ok owned
          → owned.entries ≡ made.entries)
      → IsFree b',' ts.name
      → 0 < ts.replicas
      → (create_config_map C key ts w).0 ≡ ok cm
      → (nodes_of ts cm ≡ ok (node_list ts ts.replicas 0))
        × (length (node_list ts ts.replicas 0) ≡ ts.replicas)
        × (has_bootstrap_values ts cm ≡ ok true)
  create_config_map-nodes_of key w {cm} keeps free some_replicas h =
      let (nodes, found, data_eq) = created_nodes key w keeps h in
      let listed : nodes ≡ node_list ts ts.replicas 0 =
        ((get_fallback_nodes_iff ts nodes).0 found).1 in
      read_back cm ts.replicas some_replicas free (data_eq ∙ ap (λ l. nodes_data l l) listed)
    where
      read_back :
          (cm : ConfigMap) (k : ℕ)
          → 0 < k
          → IsFree b',' ts.name
          → cm.entries ≡ nodes_data (node_list ts k 0) (node_list ts k 0)
          → (nodes_of ts cm ≡ ok (node_list ts k 0))
            × (length (node_list ts k 0) ≡ k)
            × (has_bootstrap_values ts cm ≡ ok true)
      read_back cm zero p free e = absurd (omega arith)
      read_back cm (suc k) p free e = (
        nodes_of-nodes_data ts cm _ _ _ e (node_list-IsFree ts (suc k) 0 free) (not_blank ts 0),
        length-node_list ts (suc k) 0,
        has_bootstrap_values-nodes_data ts cm _ _ _ e (node_list-IsFree ts (suc k) 0 free)
            (not_blank ts 0) (contains-node ts 0),
      )
