-- ===== src/Tests/Keys.antt =====
-- The secret and the whole pass: the theorems at concrete data.
use typesense_operator.Base.{codes, ◌≡◌, refl, true, none, some, [], ◌∷◌}
use typesense_operator.Base.Exec.{ok, pure, ◌>>=◌, on_result}
use typesense_operator.Api.{Secret}
use typesense_operator.Api.Client.{World, read, request, create_secret}
use typesense_operator.ConfigMap.Endpoints.{raft_endpoint}
use typesense_operator.ConfigMap.Nodes.{node_name, fallback_from, get_fallback_nodes, get_nodes}
use typesense_operator.ConfigMap.Update.{create_config_map, create_missing, reconcile_config_map}
use typesense_operator.Controller.{init_conditions, finish}
use typesense_operator.Controller.Pass.{Parts, reconcile_parts, reconcile_found, reconcile}
use typesense_operator.Secret.{
  get_admin_api_key_object_key, secret_of, generate_token, create_admin_api_key, without_secret,
  reconcile_secret,
}
use typesense_operator.Secret.Laws.{reconcile_secret-again}
use typesense_operator.Tests.Sample.{sample_client, cluster, key, set_of, start}
use typesense_operator.Tests.Store.{no_objects}

abbrev admin_key : Secret
admin_key = record {
  namespace = codes "search";
  name = codes "ts-admin-key";
  immutable = true;
  entries = (codes "typesense-api-key", codes "random") ∷ [];
}

created_run : (reconcile_secret sample_client cluster (start 3)).0 ≡ ok admin_key
unfolding reconcile_secret without_secret create_admin_api_key generate_token secret_of
    get_admin_api_key_object_key read request ◌>>=◌ on_result pure
created_run = refl

reconcile_secret-again_example :
    let v = (reconcile_secret sample_client cluster (start 3)).1 in
    (v.writes ≡ create_secret admin_key ∷ [])
    × (admin_key.immutable ≡ true)
    × ((reconcile_secret sample_client cluster v).0 ≡ ok admin_key)
    × ((reconcile_secret sample_client cluster v).1.writes ≡ v.writes)
reconcile_secret-again_example =
    reconcile_secret-again sample_client cluster (start 3) {m = codes "gone"} {s = admin_key}
      (λ s state h. refl) (λ ts made owned h. (cc, cc, cc)) refl refl created_run

abbrev pub willing : Parts sample_client
willing = record {
  reconcile_services = λ ts. pure (ok tt);
  reconcile_ingress = λ ts. pure (ok tt);
  reconcile_http_route = λ ts. pure (ok tt);
  reconcile_scraper = λ ts. pure (ok tt);
  reconcile_pod_monitor = λ ts. pure (ok tt);
  reconcile_stateful_set = λ ts. pure (ok (set_of 3, 5));
}

-- A cluster of which nothing exists.
abbrev nothing : World sample_client
nothing = record {
  state = record {
    stateful_set = none;
    config_map = none;
    secret = none;
    pods = [];
    slices = [];
    objects = no_objects;
  };
  writes = [];
}

bootstrap_run : (reconcile sample_client willing key nothing).0 ≡ ok (some (cluster, 15))
unfolding reconcile reconcile_found init_conditions reconcile_parts reconcile_secret without_secret
    create_admin_api_key generate_token secret_of get_admin_api_key_object_key reconcile_config_map
    create_missing create_config_map get_nodes get_fallback_nodes fallback_from node_name
    raft_endpoint finish read request ◌>>=◌ on_result pure
bootstrap_run = refl
