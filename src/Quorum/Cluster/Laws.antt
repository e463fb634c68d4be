-- ===== src/Quorum/Cluster/Laws.antt =====
-- What `getClusterStatus` and `getMinimumRequiredNodes` compute.
use typesense_operator.Base.{
  ℕ, ◌-◌, ◌*◌, ◌%◌, ◌≤◌, ◌<◌, ◌≡◌, refl, ap, suc, ◌≢◌, ◌↔◌, ◌∙◌, Bool, List, length, count_if,
  arith,
}
use mathlib.Core.List.{Perm, Permᴰ}
use mathlib.Core.Logic.{∥∥₁_elim}
use typesense_operator.Base.Dict.{Dict}
use typesense_operator.Node.{NodeStatus, ClusterStatus, cluster_ok, split_brain, election_deadlock}
use typesense_operator.Quorum.Cluster.{
  get_minimum_required_nodes, leader_nodes, not_ready_nodes, judge_counts, get_cluster_status,
}

-- Of an odd number of nodes the required ones are the strict majority: more than half of the nodes,
-- and with one node less no longer more than half.
pub get_minimum_required_nodes-majority :
    (n : ℕ)
    → n % 2 ≡ 1
    → (n < 2 * get_minimum_required_nodes n) × (2 * (get_minimum_required_nodes n - 1) < n)
unfolding get_minimum_required_nodes
get_minimum_required_nodes-majority n h = omega arith

-- Of an even number of nodes above 0 the required ones are exactly half: two disjoint groups of
-- nodes can both have the required size.
pub get_minimum_required_nodes-half :
    (n : ℕ) → n % 2 ≡ 0 → 0 < n → 2 * get_minimum_required_nodes n ≡ n
unfolding get_minimum_required_nodes
get_minimum_required_nodes-half n h p = omega arith

judge_counts_iff :
    (n l d : ℕ)
    → ((judge_counts n l d ≡ split_brain) ↔ (1 < l))
      × ((judge_counts n l d ≡ election_deadlock) ↔ ((l ≡ 0) × (1 < n) × (d ≢ n)))
      × ((judge_counts n l d ≡ cluster_ok) ↔ ((l ≡ 1) × (get_minimum_required_nodes n ≤ n - d)))
unfolding judge_counts
judge_counts_iff n l d = ground arith

ClusterStatus-set : IsSet ClusterStatus
ClusterStatus-set = hlevel

-- Three of the four statuses, each exactly when its description in terms of leaders, nodes that are down
-- and nodes in all holds.
pub get_cluster_status_iff :
    (nodes : Dict NodeStatus)
    → ((get_cluster_status nodes ≡ split_brain) ↔ (1 < leader_nodes nodes))
      × ((get_cluster_status nodes ≡ election_deadlock) ↔ (
          (leader_nodes nodes ≡ 0) × (1 < length nodes) × (not_ready_nodes nodes ≢ length nodes)))
      × ((get_cluster_status nodes ≡ cluster_ok) ↔ (
          (leader_nodes nodes ≡ 1)
          × (get_minimum_required_nodes (length nodes) ≤ length nodes - not_ready_nodes nodes)))
unfolding get_cluster_status
get_cluster_status_iff nodes =
    judge_counts_iff (length nodes) (leader_nodes nodes) (not_ready_nodes nodes)

count_if-perm {ℓ} :
    {A : Type ℓ} (p : A → Bool) {xs ys : List A} → Permᴰ xs ys → count_if p xs ≡ count_if p ys
count_if-perm p Permᴰ.nil = refl
count_if-perm p (Permᴰ.cons {l₁ = xs} {l₂ = ys} e d) = rw e (rw (count_if-perm p d))
count_if-perm p (Permᴰ.swap {a = a} {b = b} e f) = rw (e, f) (omega arith)
count_if-perm p (Permᴰ.trans d e) = count_if-perm p d ∙ count_if-perm p e

length-perm {ℓ} : {A : Type ℓ} {xs ys : List A} → Permᴰ xs ys → length xs ≡ length ys
length-perm Permᴰ.nil = refl
length-perm (Permᴰ.cons e d) = ap suc (length-perm d)
length-perm (Permᴰ.swap e f) = refl
length-perm (Permᴰ.trans d e) = length-perm d ∙ length-perm e

-- The order in which Go iterates over the map of statuses has no effect on the result.
pub get_cluster_status-perm :
    {xs ys : Dict NodeStatus} → Perm xs ys → get_cluster_status xs ≡ get_cluster_status ys
unfolding get_cluster_status leader_nodes not_ready_nodes
get_cluster_status-perm p =
    ∥∥₁_elim p (ClusterStatus-set _ _) λ d. cc (count_if-perm _ d, length-perm d)
