-- ===== src/Operator/Handlers.antt =====
-- The handlers that `startLeading` of cmd/transflect-operator/operator.go registers with the
-- informers: `enqueue` and `enqueueWithOld` for ReplicaSets, `cleanupDeployment` for Deployments. The
-- work queue and `MetaNamespaceKeyFunc` of client-go are parameters.
pub mod Handled
use transflect.Base.{String, Bool, true, false, Option, none, some, List, [], ◌∷◌, if◌then◌else◌}
use transflect.Kube.{ReplicaSet}
use transflect.Replica.{should_enqueue}
use transflect.Outcome.{Outcome, ok, err, panic}
use transflect.Cluster.{Cluster}
use transflect.Upsert.{Config}
use transflect.Operator.{State, cleanup_deployment}

-- What an informer hands to a handler, by its Go type. A Deployment has its namespace and its name;
-- `unknown` is any other type, such as `DeletedFinalStateUnknown` in the place of an object whose
-- deletion the informer missed.
pub data Object : Type 0 where
  replica_set : ReplicaSet → Object
  deployment : String → String → Object
  unknown : Object

-- The events of the two informers that have a handler.
pub data Event : Type 0 where
  added : Object → Event
  updated : Object → Object → Event
  deleted : Object → Event

-- `key, _ := cache.MetaNamespaceKeyFunc(rs)`
abbrev pub key_text : Outcome String → String
key_text (ok key) = key
key_text (err e) = ""
key_text (panic p) = ""

key_if_ok : Outcome String → Option String
key_if_ok (ok key) = some key
key_if_ok (err e) = none
key_if_ok (panic p) = none

module _ (c : Cluster) (o : Config) {Queue : Type 0} (add : String → Queue → Queue)
    (key_func : Object → Outcome String) where
  open c use {World}

  unfoldable pub enqueue : Object → Queue → Queue
  enqueue (replica_set rs) q =
      if should_enqueue rs then add (key_text (key_func (replica_set rs))) q else q
  enqueue (deployment namespace name) q = q
  enqueue unknown q = q

  unfoldable pub enqueue_with_old : Object → Object → Queue → Queue
  unfolding enqueue
  enqueue_with_old old v q = enqueue v q

  unfoldable pub cleanup : Object → State World → State World
  unfolding key_if_ok
  cleanup (deployment namespace name) st =
      cleanup_deployment c o (key_if_ok (key_func (deployment namespace name))) st
  cleanup (replica_set rs) st = st
  cleanup unknown st = st

  unfoldable pub handle : Event → Queue × State World → Queue × State World
  unfolding enqueue enqueue_with_old cleanup
  handle (added v) (q, st) = (enqueue v q, st)
  handle (updated old v) (q, st) = (enqueue_with_old old v q, st)
  handle (deleted v) (q, st) = (q, cleanup v st)

  -- The events in their order.
  unfoldable pub handle_all : List Event → Queue × State World → Queue × State World
  unfolding handle
  handle_all [] s = s
  handle_all (e ∷ es) s = handle_all es (handle e s)
