-- ===== src/Secret/Laws.antt =====
-- When `ReconcileSecret` writes.
use typesense_operator.Base.{Text, ◌≡◌, refl, true, none, some, ◌∷◌, arith, inl, inr}
use typesense_operator.Base.Exec.{
  Error, not_found, other, Result-cases, ok, err, pure, ◌>>=◌, on_result,
}
use typesense_operator.Api.{Secret, TypesenseCluster, ObjectKey}
use typesense_operator.Api.Client.{Client, World, read, request, create_secret}
use typesense_operator.Secret.{
  get_admin_api_key_object_key, secret_of, generate_token, create_admin_api_key, without_secret,
  reconcile_secret,
}

module _ (C : Client) where
  -- A secret that can be read comes back as it is. If it cannot be read, and it was named in the
  -- spec or the failure is not its absence, the error comes back. In both cases nothing is sent.
  pub reconcile_secret_lem :
      (ts : TypesenseCluster) (w : World C)
      → ((secret : Secret)
          → (C.get_secret (get_admin_api_key_object_key ts) w.state).0 ≡ ok secret
          → ((reconcile_secret C ts w).0 ≡ ok secret)
            × ((reconcile_secret C ts w).1.writes ≡ w.writes))
        × ((name : Text) (e : Error)
            → ts.admin_api_key ≡ some name
            → (C.get_secret (get_admin_api_key_object_key ts) w.state).0 ≡ err e
            → ((reconcile_secret C ts w).0 ≡ err e)
              × ((reconcile_secret C ts w).1.writes ≡ w.writes))
        × ((m : Text)
            → (C.get_secret (get_admin_api_key_object_key ts) w.state).0 ≡ err (other m)
            → ((reconcile_secret C ts w).0 ≡ err (other m))
              × ((reconcile_secret C ts w).1.writes ≡ w.writes))
  unfolding reconcile_secret without_secret read ◌>>=◌ on_result pure
  reconcile_secret_lem ts w =
      (λ secret h. ground arith, λ name e named h. ground arith, λ m h. ground arith)

  -- What the API server documents: a secret that was created is read back under its name.
  abbrev pub ReadsBack : Type 0
  ReadsBack =
      (s : Secret) (state : C.State)
      → (C.send (create_secret s) state).0 ≡ ok tt
      → (C.get_secret (record { namespace = s.namespace; name = s.name })
          (C.send (create_secret s) state).1).0
        ≡ ok s

  -- Setting the owner leaves the name and the rest of the secret alone.
  abbrev pub KeepsSecret : Type 0
  KeepsSecret =
      (ts : TypesenseCluster) (made owned : Secret)
      → C.set_secret_controller_reference ts made ≡ ok owned
      → (owned.namespace ≡ made.namespace)
        × (owned.name ≡ made.name)
        × (owned.immutable ≡ made.immutable)

  -- What a successful creation did, from the state that the random bytes left.
  abbrev WasCreated : ObjectKey → TypesenseCluster → World C → World C → Secret → Type 0
  WasCreated key ts w v s =
      let state = (C.random 256 w.state).1 in
      ((C.send (create_secret s) state).0 ≡ ok tt)
      × (v.state ≡ (C.send (create_secret s) state).1)
      × (v.writes ≡ create_secret s ∷ w.writes)
      × (s.namespace ≡ ts.namespace)
      × (s.name ≡ key.name)
      × (s.immutable ≡ true)

  create_admin_api_key-WasCreated :
      (key : ObjectKey) (ts : TypesenseCluster) (w : World C) {s : Secret}
      → KeepsSecret
      → (create_admin_api_key C key ts w).0 ≡ ok s
      → WasCreated key ts w (create_admin_api_key C key ts w).1 s
  unfolding create_admin_api_key generate_token secret_of read request ◌>>=◌ on_result pure
  create_admin_api_key-WasCreated key ts w {s} keeps h =
      elim (Result-cases (C.random 256 w.state).0) [
        | inl (e, p) ↦ absurd (ground arith)
        | inr (token, p) ↦
            elim (Result-cases
              (C.set_secret_controller_reference ts (secret_of key ts (C.base64 token)))) [
                | inl (e, q) ↦ absurd (ground arith)
                | inr (owned, q) ↦
                    ground (arith, keeps ts (secret_of key ts (C.base64 token)) owned q)
              ]
      ]

  reconcile_secret-create_admin_api_key :
      (ts : TypesenseCluster) (w : World C) {m : Text}
      → (C.get_secret (get_admin_api_key_object_key ts) w.state).0 ≡ err (not_found m)
      → ts.admin_api_key ≡ none
      → reconcile_secret C ts w
        ≡ create_admin_api_key C
            (get_admin_api_key_object_key ts)
            ts
            (read C (C.get_secret (get_admin_api_key_object_key ts)) w).1
  unfolding reconcile_secret without_secret read ◌>>=◌ on_result pure
  reconcile_secret-create_admin_api_key ts w {m} gone none_named = rw (gone, none_named) refl

  reads_back_created :
      (key : ObjectKey) (ts : TypesenseCluster) (w v : World C) (s : Secret)
      → ReadsBack
      → key.namespace ≡ ts.namespace
      → WasCreated key ts w v s
      → (C.get_secret key v.state).0 ≡ ok s
  reads_back_created key ts w v s back e (sent, at, _, namespace, name, _) =
      let same : key ≡ record { namespace = s.namespace; name = s.name } = cc in
      rw (same, at) (back s (C.random 256 w.state).1 sent)

  -- Where the secret is missing and the spec names none, a successful call creates one immutable
  -- secret, and a second call returns the same one and sends nothing, if the API server reads
  -- created secrets back and nothing else happens in between.
  pub reconcile_secret-again :
      (ts : TypesenseCluster) (w : World C) {m : Text} {s : Secret}
      → ReadsBack
      → KeepsSecret
      → (C.get_secret (get_admin_api_key_object_key ts) w.state).0 ≡ err (not_found m)
      → ts.admin_api_key ≡ none
      → (reconcile_secret C ts w).0 ≡ ok s
      → let v = (reconcile_secret C ts w).1 in
        (v.writes ≡ create_secret s ∷ w.writes)
        × (s.immutable ≡ true)
        × ((reconcile_secret C ts v).0 ≡ ok s)
        × ((reconcile_secret C ts v).1.writes ≡ v.writes)
  unfolding read get_admin_api_key_object_key
  reconcile_secret-again ts w {m} {s} back keeps gone none_named h =
      let key = get_admin_api_key_object_key ts in
      let x = (read C (C.get_secret key) w).1 in
      let e = reconcile_secret-create_admin_api_key ts w {m = m} gone none_named in
      let made : WasCreated key ts x (reconcile_secret C ts w).1 s =
        rw e (create_admin_api_key-WasCreated key ts x {s = s} keeps (rw e at h)) in
      let again =
        (reconcile_secret_lem ts (reconcile_secret C ts w).1).0 s
          (reads_back_created key ts x (reconcile_secret C ts w).1 s back refl made) in
      (made.2, made.5, again.0, again.1)
