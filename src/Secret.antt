-- ===== src/Secret.antt =====
-- internal/controller/typesensecluster_secret.go: the secret with the admin key of the nodes, and
-- `generateToken` of utils.go. The labels of the secret are not modelled.
pub mod Laws
use typesense_operator.Base.{Text, codes, ℕ, true, Option, none, some, [], ◌∷◌, ◌++◌}
use typesense_operator.Base.Exec.{
  Error, not_found, other, panic, Result, ok, err, pure, ◌>>=◌, on_result, attempt, or_return,
}
use typesense_operator.Api.{Secret, TypesenseCluster, ObjectKey}
use typesense_operator.Api.Client.{Client, M, read, request, create_secret}

-- `ClusterAdminApiKeySecretKeyName`
abbrev pub admin_api_key_secret_key_name : Text
admin_api_key_secret_key_name = codes "typesense-api-key"

-- `getAdminApiKeyObjectKey`
unfoldable pub get_admin_api_key_object_key : TypesenseCluster → ObjectKey
get_admin_api_key_object_key ts = record {
  namespace = ts.namespace;
  name = elim ts.admin_api_key [ none ↦ ts.name ++ codes "-admin-key" | some name ↦ name ];
}

-- The immutable secret with a token.
unfoldable pub secret_of : ObjectKey → TypesenseCluster → Text → Secret
secret_of key ts token = record {
  namespace = ts.namespace;
  name = key.name;
  immutable = true;
  entries = (admin_api_key_secret_key_name, token) ∷ [];
}

module _ (C : Client) where
  -- `generateToken`
  unfoldable pub generate_token : M C (Result Text)
  generate_token = attempt (read C (C.random 256)) λ token. pure (ok (C.base64 token))

  -- `createAdminApiKey`
  unfoldable pub create_admin_api_key : ObjectKey → TypesenseCluster → M C (Result Secret)
  create_admin_api_key key ts = attempt generate_token λ token.
      on_result (C.set_secret_controller_reference ts (secret_of key ts token)) (λ e. pure (err e))
        λ secret. attempt (request C (create_secret secret)) λ _. pure (ok secret)

  -- A secret that cannot be read is created if it is missing and the spec names none.
  unfoldable pub without_secret : TypesenseCluster → Option Text → Error → M C (Result Secret)
  without_secret ts none (not_found m) = create_admin_api_key (get_admin_api_key_object_key ts) ts
  without_secret ts (some name) (not_found m) = pure (err (not_found m))
  without_secret ts named (other m) = pure (err (other m))
  without_secret ts named (panic m) = pure (err (panic m))

  -- `ReconcileSecret`; the value beside an error is left out, since `Reconcile` does not read it.
  unfoldable pub reconcile_secret : TypesenseCluster → M C (Result Secret)
  reconcile_secret ts =
      or_return (read C (C.get_secret (get_admin_api_key_object_key ts)))
        (without_secret ts ts.admin_api_key) λ secret. pure (ok secret)
