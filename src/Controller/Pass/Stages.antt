-- ===== src/Controller/Pass/Stages.antt =====
-- The order in which `Reconcile` runs the parts of a cluster, as a step relation.
use typesense_operator.Base.{
  Text, codes, ℕ, Bool, Option, none, some, List, [], ◌∷◌, ◌++◌, ◌≡◌, refl, ap, ◌⊎◌, inl, inr,
}
use typesense_operator.Base.Dict.{get_or}
use typesense_operator.Base.Exec.{Error, Result, Result-cases, ok, err, ◌>>=◌, on_result}
use typesense_operator.Api.{Secret, StatefulSet, TypesenseCluster}
use typesense_operator.Api.Client.{Client, World, M}
use typesense_operator.ConfigMap.Update.{reconcile_config_map}
use typesense_operator.Controller.{finish}
use typesense_operator.Controller.Pass.{Parts, on_failure, part, reconcile_parts}
use typesense_operator.Secret.{admin_api_key_secret_key_name, reconcile_secret}

pub data Part : Type 0 where
  secret config_map services ingress http_route scraper pod_monitor stateful_set : Part

-- The reason that the failure of a part leaves in the status.
abbrev pub reason_of : Part → Text
reason_of secret = codes "SecretNotReady"
reason_of config_map = codes "ConfigMapNotReady"
reason_of services = codes "ServicesNotReady"
reason_of ingress = codes "IngressNotReady"
reason_of http_route = codes "HttpRouteNotReady"
reason_of scraper = codes "ScrapersNotReady"
reason_of pod_monitor = codes "MetricsExporterNotReady"
reason_of stateful_set = codes "StatefulSetNotReady"

abbrev pub all_parts : List Part
all_parts =
    secret ∷ config_map ∷ services ∷ ingress ∷ http_route ∷ scraper ∷ pod_monitor ∷ stateful_set
    ∷ []

module _ (C : Client) (parts : Parts C) (ts : TypesenseCluster) where
  -- What the parts so far have returned.
  pub record Found : Type 0 where
    pub key : Option Secret
    pub updated : Option (Option Bool)
    pub set : Option (StatefulSet × ℕ)

  abbrev pub nothing : Found
  nothing = record { key = none; updated = none; set = none }

  -- A call of a part: it returns what is found then, and the next world.
  abbrev pub Succeeds : Part → Found → World C → Found → World C → Type 0
  Succeeds secret f w g v =
      (s : Secret) × (reconcile_secret C ts w ≡ (ok s, v)) × (g ≡ record f { key = some s })
  Succeeds config_map f w g v =
      (u : Option Bool) × (reconcile_config_map C ts w ≡ (ok u, v))
      × (g ≡ record f { updated = some u })
  Succeeds services f w g v = (parts.reconcile_services ts w ≡ (ok tt, v)) × (g ≡ f)
  Succeeds ingress f w g v = (parts.reconcile_ingress ts w ≡ (ok tt, v)) × (g ≡ f)
  Succeeds http_route f w g v = (parts.reconcile_http_route ts w ≡ (ok tt, v)) × (g ≡ f)
  Succeeds scraper f w g v = (parts.reconcile_scraper ts w ≡ (ok tt, v)) × (g ≡ f)
  Succeeds pod_monitor f w g v = (parts.reconcile_pod_monitor ts w ≡ (ok tt, v)) × (g ≡ f)
  Succeeds stateful_set f w g v =
      (x : StatefulSet × ℕ) × (parts.reconcile_stateful_set ts w ≡ (ok x, v))
      × (g ≡ record f { set = some x })

  abbrev pub Fails : Part → World C → Error → World C → Type 0
  Fails secret w e v = reconcile_secret C ts w ≡ (err e, v)
  Fails config_map w e v = reconcile_config_map C ts w ≡ (err e, v)
  Fails services w e v = parts.reconcile_services ts w ≡ (err e, v)
  Fails ingress w e v = parts.reconcile_ingress ts w ≡ (err e, v)
  Fails http_route w e v = parts.reconcile_http_route ts w ≡ (err e, v)
  Fails scraper w e v = parts.reconcile_scraper ts w ≡ (err e, v)
  Fails pod_monitor w e v = parts.reconcile_pod_monitor ts w ≡ (err e, v)
  Fails stateful_set w e v = parts.reconcile_stateful_set ts w ≡ (err e, v)

  -- The parts of a list succeed one after the other.
  pub data Runs : List Part → Found → World C → Found → World C → Type 0 where
    stay : {f : Found} {w : World C} → Runs [] f w f w
    then_ :
        {p : Part} {ps : List Part} {f g h : Found} {w v u : World C}
        → Succeeds p f w g v
        → Runs ps g v h u
        → Runs (p ∷ ps) f w h u

  abbrev pub R : Type 0
  R = Result (TypesenseCluster × ℕ) × World C

  -- The end of the pass, with what the parts have returned.
  abbrev pub Finishes : Found → World C → R → Type 0
  Finishes f v r =
      (s : Secret) × (updated : Option Bool) × (set : StatefulSet × ℕ) × (f
        ≡ record { key = some s; updated = some updated; set = some set })
      × (r
          ≡ finish C ts (get_or [] admin_api_key_secret_key_name s.entries)
              (record { namespace = set.0.namespace; name = set.0.name }) updated set.1 v)

  -- All parts succeed and the pass finishes.
  abbrev pub Completes : List Part → Found → World C → R → Type 0
  Completes ps f w r = (g : Found) × (v : World C) × Runs ps f w g v × Finishes g v r

  -- Some parts succeed, the next one fails, and nothing follows but the report of the failure.
  abbrev pub StopsAt : List Part → Found → World C → R → Type 0
  StopsAt ps f w r =
      (before : List Part) × (p : Part) × (after : List Part) × (e : Error) × (g : Found)
      × (v : World C) × (u : World C) × (before ++ (p ∷ after) ≡ ps)
      × Runs before f w g v
      × Fails p v e u
      × (r ≡ on_failure C ts (reason_of p) e u)

  abbrev Ends : List Part → Found → World C → R → Type 0
  Ends ps f w r = Completes ps f w r ⊎ StopsAt ps f w r

  later :
      (p : Part) (ps : List Part) (f g : Found) (w v : World C) (r : R)
      → Succeeds p f w g v
      → Ends ps g v r
      → Ends (p ∷ ps) f w r
  later p ps f g w v r succeeded (inl (h, u, runs, done)) = inl (h, u, then_ succeeded runs, done)
  later p ps f g w v r succeeded (inr (before, q, after, e, h, u, x, split, runs, fails, same)) =
      inr
        (p ∷ before, q, after, e, h, u, x, ap (λ l. p ∷ l) split, then_ succeeded runs, fails, same)

  stage :
      {A : Type 0} (p : Part) (ps : List Part) (m : M C (Result A))
      (rest : A → M C (Result (TypesenseCluster × ℕ))) (f : Found) (g : A → Found) (w : World C)
      → ((e : Error) (v : World C) → m w ≡ (err e, v) → Fails p w e v)
      → ((a : A) (v : World C) → m w ≡ (ok a, v) → Succeeds p f w (g a) v)
      → ((a : A) (v : World C) → Ends ps (g a) v (rest a v))
      → Ends (p ∷ ps) f w (part C ts (reason_of p) m rest w)
  unfolding ◌>>=◌ on_result
  stage p ps m rest f g w fails succeeds next = elim (Result-cases (m w).0) [
    | inl (e, h) ↦ inr (
      [],
      p,
      ps,
      e,
      f,
      w,
      (m w).1,
      refl,
      stay,
      fails e (m w).1 (ap (λ r. (r, (m w).1)) h),
      rw h refl,
    )
    | inr (a, h) ↦ rw h (
        later p ps f (g a) w (m w).1 (rest a (m w).1)
          (succeeds a (m w).1 (ap (λ r. (r, (m w).1)) h)) (next a (m w).1))
  ]

  -- A pass over an existing cluster calls its parts in the order of `all_parts`, each in the world
  -- that the one before it left. Either all succeed, and the pass ends with what `finish` makes of
  -- the key, the update and the stateful set that they returned; or it stops at the first part that
  -- fails: the parts behind it are not called, and the pass ends with the report of that failure
  -- under the reason of the part.
  pub reconcile_parts-Ends :
      (w : World C)
      → Completes all_parts nothing w (reconcile_parts C parts ts w)
        ⊎ StopsAt all_parts nothing w (reconcile_parts C parts ts w)
  unfolding reconcile_parts
  reconcile_parts-Ends w =
      stage secret _ _ _ nothing (λ s. record nothing { key = some s }) w (λ e v h. h)
        (λ s v h. (s, h, refl))
        λ s v0.
          stage config_map _ _ _ _ (λ u. record nothing { key = some s; updated = some u }) v0
            (λ e v h. h) (λ u v h. (u, h, refl))
            λ u v1.
              stage services _ _ _ _ (λ _. record nothing { key = some s; updated = some u }) v1
                (λ e v h. h) (λ _ v h. (h, refl))
                λ _ v2.
                  stage ingress _ _ _ _ (λ _. record nothing { key = some s; updated = some u }) v2
                    (λ e v h. h) (λ _ v h. (h, refl))
                    λ _ v3.
                      stage http_route _ _ _ _
                        (λ _. record nothing { key = some s; updated = some u }) v3 (λ e v h. h)
                        (λ _ v h. (h, refl))
                        λ _ v4.
                          stage scraper _ _ _ _
                            (λ _. record nothing { key = some s; updated = some u }) v4 (λ e v h. h)
                            (λ _ v h. (h, refl))
                            λ _ v5.
                              stage pod_monitor _ _ _ _
                                (λ _. record nothing { key = some s; updated = some u }) v5
                                (λ e v h. h) (λ _ v h. (h, refl))
                                λ _ v6.
                                  stage stateful_set _ _ _ _
                                    (λ x. record { key = some s; updated = some u; set = some x })
                                    v6 (λ e v h. h) (λ x v h. (x, h, refl))
                                    λ x v7. inl (_, v7, stay, (s, u, x, refl, refl))
