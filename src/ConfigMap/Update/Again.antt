-- ===== src/ConfigMap/Update/Again.antt =====
-- When `updateConfigMap` writes, and what it does when it is called again.
use typesense_operator.Base.{
  Text, text_eq_refl, ◌≡◌, false, List, ◌∷◌, length, arith, if◌then◌else◌,
}
use typesense_operator.Base.Dict.{Dict}
use typesense_operator.Base.Exec.{ok, ◌>>=◌, on_result}
use typesense_operator.Api.{ConfigMap}
use typesense_operator.Api.Client.{Client, World, request, update_config_map as update}
use typesense_operator.ConfigMap.Update.{Updated, nodes_data, data_differs, write_nodes}

data_differs_refl : (d : Dict Text) → data_differs d d ≡ false
unfolding data_differs
data_differs_refl d = simp text_eq_refl

module _ (C : Client) where
  -- A config map that `updateConfigMap` has brought up to date is left alone when the same nodes
  -- are found again: nothing is sent, and the result is the same but for `updated`.
  pub write_nodes-again :
      (cm : ConfigMap) (nodes fallback : List Text) (w v : World C) {u : Updated}
      → (write_nodes C cm nodes fallback w).0 ≡ ok u
      → write_nodes C u.config_map nodes fallback v ≡ (ok (record u { updated = false }), v)
  unfolding write_nodes ◌>>=◌ on_result request
  write_nodes-again cm nodes fallback w v {u} h =
      ground (arith, data_differs_refl (nodes_data nodes fallback))

  -- `updated` says whether the config map was sent: it is the only request and the last one, or
  -- there is none.
  pub write_nodes-updated :
      (cm : ConfigMap) (nodes fallback : List Text) (w : World C) {u : Updated}
      → (write_nodes C cm nodes fallback w).0 ≡ ok u
      → ((write_nodes C cm nodes fallback w).1.writes
          ≡ (if u.updated then update u.config_map ∷ w.writes else w.writes))
        × (u.updated ≡ data_differs cm.entries (nodes_data nodes fallback))
        × (u.config_map ≡ record cm { entries = nodes_data nodes fallback })
        × (u.available_nodes ≡ length nodes)
  unfolding write_nodes ◌>>=◌ on_result request
  write_nodes-updated cm nodes fallback w {u} h = ground arith
