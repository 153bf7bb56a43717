-- ===== src/Upsert/Cleanup.antt =====
-- The deferred deletions of the temporary Service and Ingress in `upsertFilter`.
use transflect.Base.{◌≡◌, Bool, true, false, ◌&&◌, List, [], ◌∷◌, arith, if◌then◌else◌, String}
use transflect.Kube.{ReplicaSet}
use transflect.Kube.Objects.{Service, Ingress}
use transflect.Outcome.{Outcome, ok, err, panic}
use transflect.Cluster.{Cluster, Session, Kind, Verb, Call, is_ok}
use transflect.Upsert.{
  Config, create_service, delete_service, create_ingress, delete_ingress, upsert_envoy_filter,
  transcode, behind_ingress, upsert_filter,
}

-- A call that asks to delete a Service, or an Ingress.
abbrev deletes_service : Verb → Kind → Bool
deletes_service Verb.delete Kind.service = true
deletes_service _ _ = false

abbrev deletes_ingress : Verb → Kind → Bool
deletes_ingress Verb.delete Kind.ingress = true
deletes_ingress _ _ = false

abbrev pub targets : (Verb → Kind → Bool) → List Call → List (String × String)
targets test [] = []
targets test (call ∷ calls) =
    let rest = targets test calls in
    if test call.verb call.kind then (call.namespace, call.name) ∷ rest else rest

-- The namespaces and names of the Services, or Ingresses, whose deletion a log asks for.
abbrev pub service_deletions : List Call → List (String × String)
service_deletions = targets deletes_service

abbrev pub ingress_deletions : List Call → List (String × String)
ingress_deletions = targets deletes_ingress

-- Behind the deletion of what was acquired, or of nothing.
abbrev pub and_service : Outcome Service → List (String × String) → List (String × String)
and_service (ok service) rest = (service.namespace, service.name) ∷ rest
and_service (err e) rest = rest
and_service (panic p) rest = rest

abbrev pub and_ingress : Outcome Ingress → List (String × String) → List (String × String)
and_ingress (ok ingress) rest = (ingress.namespace, ingress.name) ∷ rest
and_ingress (err e) rest = rest
and_ingress (panic p) rest = rest

module _ (c : Cluster) where
  open c use {World, Files}

  -- The log `t` of deletions is that of `s`.
  record SameDeletions (s t : Session World) : Type 0 where
    services : service_deletions t.calls ≡ service_deletions s.calls
    ingresses : ingress_deletions t.calls ≡ ingress_deletions s.calls

  create_service-SameDeletions :
      (rs : ReplicaSet) (s : Session World) → SameDeletions s (create_service c rs s).1
  unfolding create_service
  create_service-SameDeletions rs s = ground arith

  create_ingress-SameDeletions :
      (rs : ReplicaSet) (s : Session World) → SameDeletions s (create_ingress c rs s).1
  unfolding create_ingress
  create_ingress-SameDeletions rs s = ground arith

  upsert_envoy_filter-SameDeletions :
      (version : String) (rs : ReplicaSet) (fds : Files) (services : List String)
      (s : Session World)
      → SameDeletions s (upsert_envoy_filter c version rs fds services s).1
  unfolding upsert_envoy_filter
  upsert_envoy_filter-SameDeletions version rs fds services s = ground arith

  transcode-SameDeletions :
      (o : Config) (rs : ReplicaSet) (s : Session World) → SameDeletions s (transcode c o rs s).1
  unfolding transcode
  transcode-SameDeletions o rs s = grind (arith, upsert_envoy_filter-SameDeletions)

  behind_ingress-deletions :
      (o : Config) (rs : ReplicaSet) (s : Session World)
      → let t = (behind_ingress c o rs s).1 in
        (service_deletions t.calls ≡ service_deletions s.calls)
        × (ingress_deletions t.calls
            ≡ and_ingress (create_ingress c rs s).0 (ingress_deletions s.calls))
  unfolding behind_ingress delete_ingress
  behind_ingress-deletions o rs s =
      grind (arith, create_ingress-SameDeletions, transcode-SameDeletions)

  -- An upsert asks once for the deletion of the temporary Service if it acquired one, by the namespace
  -- and the name of the Service that it got, and for the deletion of no other Service; and once for that
  -- of the temporary Ingress, by the namespace and the name of the one that it got, exactly if Ingresses
  -- are in use, the Service was acquired and so was the Ingress, and of no other Ingress. This holds on
  -- every path, also where the reflection call or the EnvoyFilter fails and where the choice of services
  -- panics.
  pub upsert_filter-deletions :
      (o : Config) (rs : ReplicaSet) (s : Session World)
      → let t = (upsert_filter c o rs s).1 in
        let (made, s1) = create_service c rs s in
        let before = ingress_deletions s.calls in
        (service_deletions t.calls ≡ and_service made (service_deletions s.calls))
        × (ingress_deletions t.calls ≡ (
            if is_ok made && o.use_ingress
            then and_ingress (create_ingress c rs s1).0 before
            else before))
  unfolding upsert_filter delete_service
  upsert_filter-deletions o rs s =
      let s1 = (create_service c rs s).1 in
      ground (
        arith,
        create_service-SameDeletions rs s,
        behind_ingress-deletions o rs s1,
        transcode-SameDeletions o rs s1,
      )
