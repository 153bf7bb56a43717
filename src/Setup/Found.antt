-- ===== src/Setup/Found.antt =====
-- Where the configuration of the Kubernetes client comes from.
use mathlib.Core.Path.{subst}
use transflect.Base.{
  Bool-cases, String, ◌≡◌, refl, sym, ap, ◌≢◌, ◌↔◌, ◌⊎◌, inl, inr, true, arith, string_eq,
}
use transflect.Outcome.{Outcome, ok, err, panic, Error}
use transflect.Setup.{
  Host, Flags, Identity, kubeconfig_path, built, outside_cluster, get_config, get_client_sets,
  with_config, with_k8s, with_istio, lease_id_of, identified, identity, new_operator,
}

module _ (h : Host) where
  open h use {RestConfig, Clientset, IstioClient}

  -- The file of the configuration that is read outside of a cluster.
  pub ReadFrom : RestConfig → Type 0
  ReadFrom cfg = (path : String) × (kubeconfig_path h ≡ ok path) × (h.build_config path ≡ ok cfg)

  built-ok :
      (p : Outcome String) (cfg : RestConfig)
      → built h p ≡ ok cfg
      → (path : String) × (p ≡ ok path) × (h.build_config path ≡ ok cfg)
  unfolding built
  built-ok (ok path) cfg e = (path, refl, ground (arith, e))
  built-ok (err x) cfg e = cc
  built-ok (panic x) cfg e = cc

  -- The configuration of the cluster around the process, or, only where there is none, that of a file.
  pub Found : RestConfig → Type 0
  Found cfg =
      (h.in_cluster_config ≡ ok cfg)
      ⊎ ((e : Error) × (h.in_cluster_config ≡ err e)
          × (h.is_not_in_cluster e ≡ true)
          × ReadFrom cfg)

  found-forth :
      (r : Outcome RestConfig) (cfg : RestConfig)
      → outside_cluster h r ≡ ok cfg
      → (r ≡ ok cfg) ⊎ ((e : Error) × (r ≡ err e) × (h.is_not_in_cluster e ≡ true) × ReadFrom cfg)
  unfolding outside_cluster ReadFrom
  found-forth (ok x) cfg e = inl e
  found-forth (panic p) cfg e = cc
  found-forth (err x) cfg e = elim (Bool-cases (h.is_not_in_cluster x)) [
    | inl absent ↦
        let e' : built h (kubeconfig_path h) ≡ ok cfg = ground (arith, absent, e) in
        inr (x, refl, absent, built-ok (kubeconfig_path h) cfg e')
    | inr present ↦ ground (arith, present, e)
  ]

  -- `getConfig` gives a configuration exactly if it is the one of the cluster around the process, or
  -- there is no such cluster and it is built from the file that KUBECONFIG names or, without it, from
  -- the one in the home directory.
  pub get_config-Found : (cfg : RestConfig) → (get_config h ≡ ok cfg) ↔ Found cfg
  unfolding get_config Found ReadFrom
  get_config-Found cfg = (found-forth h.in_cluster_config cfg, back)
    where
      back : Found cfg → outside_cluster h h.in_cluster_config ≡ ok cfg
      back (inl q) = rw (q, outside_cluster) refl
      back (inr (x, q, absent, (path, p, d))) = rw (q, outside_cluster, absent, p, built, d) refl

  -- The clients of an operator are made from one configuration.
  pub Clients : Clientset → IstioClient → Outcome RestConfig → Type 0
  Clients k8s istio r =
      (cfg : RestConfig) × (r ≡ ok cfg)
      × (h.new_clientset cfg ≡ ok k8s)
      × (h.new_istio cfg ≡ ok istio)

  with_config-Clients :
      (r : Outcome RestConfig) (k8s : Clientset) (istio : IstioClient)
      → with_config h r ≡ ok (k8s, istio)
      → Clients k8s istio r
  unfolding with_config with_k8s with_istio Clients
  with_config-Clients (err x) k8s istio e = cc
  with_config-Clients (panic x) k8s istio e = cc
  with_config-Clients (ok cfg) k8s istio e = go (h.new_clientset cfg) (h.new_istio cfg) refl refl e
    where
      go :
          (x : Outcome Clientset) (y : Outcome IstioClient)
          → h.new_clientset cfg ≡ x
          → h.new_istio cfg ≡ y
          → with_k8s h cfg x ≡ ok (k8s, istio)
          → Clients k8s istio (ok cfg)
      go (err x) y q q' e' = cc
      go (panic x) y q q' e' = cc
      go (ok k) (ok i) q q' e' =
          let both : with_istio h k (ok i) ≡ ok (k8s, istio) =
            subst (λ z. with_istio h k z ≡ ok (k8s, istio)) q' e' in
          (cfg, refl, cc, cc)
      go (ok k) (err x) q q' e' =
          let both : with_istio h k (err x) ≡ ok (k8s, istio) =
            subst (λ z. with_istio h k z ≡ ok (k8s, istio)) q' e' in
          cc
      go (ok k) (panic x) q q' e' =
          let both : with_istio h k (panic x) ≡ ok (k8s, istio) =
            subst (λ z. with_istio h k z ≡ ok (k8s, istio)) q' e' in
          cc

  identified-ok :
      (flags : Flags) (r : Outcome (Clientset × IstioClient)) (op : Identity h)
      → identified h flags r ≡ ok op
      → (r ≡ ok (op.k8s, op.istio)) × (op.lease_id ≡ lease_id_of h flags)
  unfolding identified identity
  identified-ok flags (ok (k8s, istio)) op e =
      let same : identity h flags k8s istio ≡ op = cc in
      (
        ap (λ (x : Identity h). ok (x.k8s, x.istio)) same,
        ap (λ (x : Identity h). x.lease_id) (sym same),
      )
  identified-ok flags (err x) op e = cc
  identified-ok flags (panic x) op e = cc

  -- An operator that `newOperator` gives has both clients from one configuration that `getConfig` gave,
  -- and its ID for the lease is the one of the flags, or a new UUID where they have none.
  pub new_operator-Clients :
      (flags : Flags) (op : Identity h)
      → new_operator h flags ≡ ok op
      → Clients op.k8s op.istio (get_config h)
        × ((flags.lease_id ≢ "") → op.lease_id ≡ flags.lease_id)
        × ((flags.lease_id ≡ "") → op.lease_id ≡ h.new_uuid)
  unfolding new_operator get_client_sets lease_id_of
  new_operator-Clients flags op e =
      let (q, id) = identified-ok flags (get_client_sets h) op e in
      (
        with_config-Clients (get_config h) op.k8s op.istio q,
        λ given. ground (arith, id, given),
        λ missing. ground (arith, id, missing),
      )
