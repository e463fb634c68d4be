-- ===== src/Quorum/Members/Sound.antt =====
-- Which members `getQuorum` finds.
use typesense_operator.Base.{
  Text, text_eq, text_eq_iff, ℕ, zero, suc, ◌≡◌, ◌≢◌, refl, ◌⊎◌, inl, inr, true, some, List, [],
  ◌∷◌, arith, Bool-cases, Option-cases,
}
use mathlib.Core.List.{Memᴰ}
use typesense_operator.Base.Dict.{Dict, lookup, lookup-insert}
use typesense_operator.Api.{Pod, TypesenseCluster}
use typesense_operator.Api.Client.{Client}
use typesense_operator.ConfigMap.Endpoints.{raft_endpoint}
use typesense_operator.Utils.{contains, is_member}
use typesense_operator.Utils.Maps.{get_elem?, contains_lem}
use typesense_operator.Quorum.Members.{is_listed, quorum_nodes}

get_elem?-Memᴰ :
    (values : List Text) (i : ℕ) {v : Text} → get_elem? values i ≡ some v → Memᴰ v values
get_elem?-Memᴰ [] i h = absurd (ground arith)
get_elem?-Memᴰ (x ∷ values) zero h = Memᴰ.head (ground arith)
get_elem?-Memᴰ (x ∷ values) (suc i) h = Memᴰ.tail (get_elem?-Memᴰ values i h)

-- What `contains` finds is an element.
is_member-Memᴰ : (values : List Text) (v : Text) → is_member values v ≡ true → Memᴰ v values
is_member-Memᴰ values v h = elim (Option-cases (contains values v)) [
  | inl none_found ↦ absurd (ground arith)
  | inr (i, e) ↦ get_elem?-Memᴰ values i (contains_lem values v e).0
]

module _ (C : Client) (ts : TypesenseCluster) (listed : List Text) where
  -- The raft endpoint of the pod, under its address, is an element of the list.
  abbrev HasEndpoint : Pod → Type 0
  HasEndpoint pod = (pod.pod_ip ≢ []) × Memᴰ (raft_endpoint ts pod.pod_ip) listed

  -- A pod of the list that stands behind a member.
  abbrev pub ListedPod : List Pod → Text → Text → Type 0
  ListedPod pods name ip =
      (pod : Pod) × Memᴰ pod pods
      × (pod.name ≡ name)
      × HasEndpoint pod
      × (C.parse_ip pod.pod_ip ≡ ip)

  is_listed-HasEndpoint : (pod : Pod) → is_listed ts listed pod ≡ true → HasEndpoint pod
  unfolding is_listed
  is_listed-HasEndpoint pod h = (
    λ empty. absurd (ground (arith, text_eq_iff pod.pod_ip [])),
    is_member-Memᴰ listed (raft_endpoint ts pod.pod_ip) (ground arith),
  )

  weaken :
      {p : Pod} {pods : List Pod} {name ip : Text}
      → ListedPod pods name ip
      → ListedPod (p ∷ pods) name ip
  weaken (pod, m, n, l, i) = (pod, Memᴰ.tail m, n, l, i)

  quorum_nodes-from :
      (pods : List Pod) (qn : Dict Text) (name : Text) {ip : Text}
      → lookup name (quorum_nodes C ts listed pods qn) ≡ some ip
      → (lookup name qn ≡ some ip) ⊎ ListedPod pods name ip
  unfolding quorum_nodes
  quorum_nodes-from [] qn name h = inl h
  quorum_nodes-from (pod ∷ pods) qn name {ip} h = elim (Bool-cases (is_listed ts listed pod)) [
    | inr unlisted ↦ elim (quorum_nodes-from pods qn name {ip = ip} (rw unlisted at h)) [
      | inl old ↦ inl old
      | inr found ↦ inr (weaken found)
    ]
    | inl here ↦ elim (quorum_nodes-from pods _ name {ip = ip} (rw here at h)) [
      | inr found ↦ inr (weaken found)
      | inl old ↦ elim (Bool-cases (text_eq pod.name name)) [
        | inl same ↦ inr (
          pod,
          Memᴰ.head refl,
          (text_eq_iff pod.name name).0 same,
          is_listed-HasEndpoint pod here,
          ground (arith, lookup-insert pod.name name (C.parse_ip pod.pod_ip) qn),
        )
        | inr differ ↦ inl (ground (arith, lookup-insert pod.name name (C.parse_ip pod.pod_ip) qn))
      ]
    ]
  ]

  -- Every member of the quorum is a pod of the list under its own name and address. The pod has an
  -- address, and its raft endpoint is an element of the list of nodes.
  pub quorum_nodes_sound :
      (pods : List Pod) (name : Text) {ip : Text}
      → lookup name (quorum_nodes C ts listed pods []) ≡ some ip
      → ListedPod pods name ip
  unfolding lookup
  quorum_nodes_sound pods name h = elim (quorum_nodes-from pods [] name h) [
    | inl old ↦ absurd (ground arith)
    | inr found ↦ found
  ]
