-- ===== src/ConfigMap/Nodes/Fallback.antt =====
-- The fallback nodes, by their names in the headless service, and how they are read back.
use typesense_operator.Base.{
  Text, codes, contains_text, decimal, is_blank, ℕ, zero, suc, ◌≤◌, ◌≡◌, refl, sym, ◌∙◌, ap, ◌↔◌,
  true, false, List, [], ◌∷◌, ◌++◌, All, length, arith,
}
use mathlib.Core.List.{append_assoc, append-nil}
use typesense_operator.Base.Exec.{ok}
use typesense_operator.Base.Number.Laws.{decimal-IsFree}
use typesense_operator.Base.Strings.Laws.{
  IsFree, IsFree-append, is_blank-append, contains_text-append,
}
use typesense_operator.Api.{TypesenseCluster, cluster_stateful_set}
use typesense_operator.ConfigMap.Endpoints.{raft_endpoint}
use typesense_operator.ConfigMap.Nodes.{
  node_name, node_name_len_limit, fallback_from, get_fallback_nodes,
}

module _ (ts : TypesenseCluster) where
  -- The raft endpoints of the pods `i`, `i + 1`, …, `k` of them.
  abbrev pub node_list : ℕ → ℕ → List Text
  node_list zero i = []
  node_list (suc k) i = raft_endpoint ts (node_name ts i) ∷ node_list k (suc i)

  -- Their names are at most 64 bytes long.
  abbrev pub AreShort : ℕ → ℕ → Type 0
  AreShort zero i = Unit
  AreShort (suc k) i = (length (node_name ts i) ≤ node_name_len_limit) × AreShort k (suc i)

  pub length-node_list : (k i : ℕ) → length (node_list k i) ≡ k
  length-node_list zero i = refl
  length-node_list (suc k) i = ap suc (length-node_list k (suc i))

  fallback_from-short :
      (k i : ℕ) (acc : List Text)
      → AreShort k i
      → fallback_from ts k i acc ≡ ok (acc ++ node_list k i)
  unfolding fallback_from
  fallback_from-short zero i acc h = rw append-nil
  fallback_from-short (suc k) i acc h = ground (
    arith,
    fallback_from-short k (suc i) (acc ++ (raft_endpoint ts (node_name ts i) ∷ [])) h.1,
    append_assoc acc (raft_endpoint ts (node_name ts i) ∷ []) (node_list k (suc i)),
  )

  short_of_fallback_from :
      (k i : ℕ) (acc : List Text) {nodes : List Text}
      → fallback_from ts k i acc ≡ ok nodes
      → AreShort k i
  unfolding fallback_from
  short_of_fallback_from zero i acc h = tt
  short_of_fallback_from (suc k) i acc {nodes} h = ground (
    arith,
    short_of_fallback_from k (suc i) (acc ++ (raft_endpoint ts (node_name ts i) ∷ []))
        {nodes = nodes},
  )

  -- `getFallbackNodes` succeeds exactly when the names of all pods of the cluster are at most 64
  -- bytes long, and then lists one raft endpoint for each pod, in order.
  pub get_fallback_nodes_iff :
      (nodes : List Text)
      → (get_fallback_nodes ts ≡ ok nodes)
        ↔ (AreShort ts.replicas 0 × (nodes ≡ node_list ts.replicas 0))
  unfolding get_fallback_nodes
  get_fallback_nodes_iff nodes = (
    λ h.
        let short : AreShort ts.replicas 0 = short_of_fallback_from ts.replicas 0 [] h in
        (short, cc (fallback_from-short ts.replicas 0 [] short)),
    λ (short, e). fallback_from-short ts.replicas 0 [] short ∙ ap ok (sym e),
  )

  pub raft_endpoint-IsFree :
      (address : Text) → IsFree b',' address → IsFree b',' (raft_endpoint ts address)
  unfolding raft_endpoint
  raft_endpoint-IsFree address h = search (IsFree-append, decimal-IsFree, h, colon) depth 12
    where
      colon : IsFree b',' (codes ":")
      colon = (refl, tt)

  node_name-IsFree : (i : ℕ) → IsFree b',' ts.name → IsFree b',' (node_name ts i)
  unfolding node_name
  node_name-IsFree i h =
      search (IsFree-append, decimal-IsFree, h, infix_free, dot_free, suffix_free) depth 12
    where
      infix_free : IsFree b',' (codes "-sts-")
      infix_free = ground arith

      dot_free : IsFree b',' (codes ".")
      dot_free = (refl, tt)

      suffix_free : IsFree b',' (codes "-sts-svc")
      suffix_free = ground arith

  pub node_list-IsFree : (k i : ℕ) → IsFree b',' ts.name → All (IsFree b',') (node_list k i)
  node_list-IsFree zero i h = tt
  node_list-IsFree (suc k) i h =
      (raft_endpoint-IsFree _ (node_name-IsFree i h), node_list-IsFree k (suc i) h)

  pub not_blank : (i : ℕ) → is_blank (raft_endpoint ts (node_name ts i)) ≡ false
  unfolding raft_endpoint node_name is_blank
  not_blank i = rw is_blank-append (rw is_blank-append (ground arith))

  same :
      (x y : Text)
      → (ts.name ++ (codes "-sts-" ++ x)) ++ y
        ≡ (ts.name ++ codes "-sts") ++ ((codes "-" ++ x) ++ y)
  same x y = simp append_assoc

  -- The node of a pod contains the name of the stateful set.
  pub contains-node :
      (i : ℕ) → contains_text (raft_endpoint ts (node_name ts i)) (cluster_stateful_set ts) ≡ true
  unfolding raft_endpoint node_name
  contains-node i = regroup (decimal i ++ (codes "." ++ (ts.name ++ codes "-sts-svc"))) _
    where
      regroup :
          (x y : Text)
          → contains_text ((ts.name ++ (codes "-sts-" ++ x)) ++ y) (ts.name ++ codes "-sts") ≡ true
      regroup x y =
          ap (λ t. contains_text t (ts.name ++ codes "-sts")) (same x y)
          ∙ contains_text-append (ts.name ++ codes "-sts") ((codes "-" ++ x) ++ y)
