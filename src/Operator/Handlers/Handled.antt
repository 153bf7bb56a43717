-- ===== src/Operator/Handlers/Handled.antt =====
-- What the handlers leave in the queue and in the maps of the operator.
use transflect.Base.{
  String, ◌≡◌, refl, Bool, false, ◌&&◌, ◌||◌, none, List, [], ◌∷◌, arith, ◌==◌, string_eq,
  if◌then◌else◌,
}
use transflect.Base.Dict
use transflect.Base.Dict.{lookup-erase}
use transflect.Replica.{should_enqueue}
use transflect.Outcome.{Outcome, ok, err, panic}
use transflect.Cluster.{Cluster}
use transflect.Upsert.{Config}
use transflect.MutexMap
use transflect.MutexMap.{mutex_of}
use transflect.Operator.{State, cleanup_deployment}
use transflect.Operator.Handlers.{
  Object, replica_set, deployment, unknown, Event, added, updated, deleted, key_text, key_if_ok,
  enqueue, enqueue_with_old, cleanup, handle, handle_all,
}

module _ (c : Cluster) (o : Config) {Queue : Type 0} (add : String → Queue → Queue)
    (key_func : Object → Outcome String) (waits : String → Queue → Bool)
    (add-waits : (k j : String) (q : Queue) → waits k (add j q) ≡ (k == j || waits k q)) where
  open c use {World}

  -- The object is a ReplicaSet that is ready and has a Deployment, and it has this key.
  abbrev pub asks_for : String → Object → Bool
  asks_for k (replica_set rs) = should_enqueue rs && k == key_text (key_func (replica_set rs))
  asks_for k (deployment namespace name) = false
  asks_for k unknown = false

  abbrev pub requested : String → List Event → Bool
  requested k [] = false
  requested k (added v ∷ es) = asks_for k v || requested k es
  requested k (updated old v ∷ es) = asks_for k v || requested k es
  requested k (deleted v ∷ es) = requested k es

  abbrev is_key : String → Outcome String → Bool
  is_key k (ok key) = k == key
  is_key k (err e) = false
  is_key k (panic p) = false

  -- A Deployment with this key was deleted.
  abbrev pub dropped : String → List Event → Bool
  dropped k [] = false
  dropped k (deleted (deployment namespace name) ∷ es) =
      is_key k (key_func (deployment namespace name)) || dropped k es
  dropped k (e ∷ es) = dropped k es

  waits-enqueue :
      (k : String) (v : Object) (q : Queue)
      → waits k (enqueue c o add key_func v q) ≡ (asks_for k v || waits k q)
  unfolding enqueue
  waits-enqueue k (replica_set rs) q =
      ground (arith, add-waits k (key_text (key_func (replica_set rs))) q)
  waits-enqueue k (deployment namespace name) q = refl
  waits-enqueue k unknown q = refl

  -- The queue and the maps behind the events, for one key.
  abbrev pub Handled : String → List Event → Queue × State World → Queue × State World → Type 0
  Handled k es (q, st) (q', st') =
      (waits k q' ≡ (requested k es || waits k q))
      × (Dict.lookup k st'.active_state
          ≡ (if dropped k es then none else Dict.lookup k st.active_state))
      × (mutex_of k st'.locker ≡ (if dropped k es then none else mutex_of k st.locker))

  cleanup-Handled :
      (k namespace name : String) (q : Queue) (st : State World) (r : Outcome String)
      → key_func (deployment namespace name) ≡ r
      → Handled k
          (deleted (deployment namespace name) ∷ [])
          (q, st)
          (q, cleanup c o add key_func (deployment namespace name) st)
  unfolding cleanup key_if_ok cleanup_deployment MutexMap.remove
  cleanup-Handled k namespace name q st (ok key) e =
      rw (e, cleanup, key_if_ok, cleanup_deployment)
        (
          ground arith,
          ground (arith, lookup-erase k key st.active_state),
          ground (arith, lookup-erase k key st.locker.entries),
        )
  cleanup-Handled k namespace name q st (err x) e =
      rw (e, cleanup, key_if_ok, cleanup_deployment) (refl, refl, refl)
  cleanup-Handled k namespace name q st (panic x) e =
      rw (e, cleanup, key_if_ok, cleanup_deployment) (refl, refl, refl)

  handle-Handled :
      (k : String) (e : Event) (s : Queue × State World)
      → Handled k (e ∷ []) s (handle c o add key_func e s)
  unfolding handle enqueue_with_old cleanup
  handle-Handled k (added v) (q, st) = (ground (arith, waits-enqueue k v q), refl, refl)
  handle-Handled k (updated old v) (q, st) = (ground (arith, waits-enqueue k v q), refl, refl)
  handle-Handled k (deleted (deployment namespace name)) (q, st) =
      cleanup-Handled k namespace name q st (key_func (deployment namespace name)) refl
  handle-Handled k (deleted (replica_set rs)) (q, st) = (refl, refl, refl)
  handle-Handled k (deleted unknown) (q, st) = (refl, refl, refl)

  Handled-then :
      (k : String) (e : Event) (es : List Event) (s t u : Queue × State World)
      → Handled k (e ∷ []) s t
      → Handled k es t u
      → Handled k (e ∷ es) s u
  Handled-then k (added v) es s t u h h' = ground arith
  Handled-then k (updated old v) es s t u h h' = ground arith
  Handled-then k (deleted (deployment namespace name)) es s t u h h' = ground arith
  Handled-then k (deleted (replica_set rs)) es s t u h h' = ground arith
  Handled-then k (deleted unknown) es s t u h h' = ground arith

  -- Given that a key that is added waits in the queue: behind any events a key waits exactly if it
  -- did before or some ReplicaSet with that key that is ready and has a Deployment was added or
  -- updated; and the entry and the mutex of a key are gone exactly if they were before or a Deployment
  -- with that key was deleted, and are what they were otherwise.
  pub handle_all-Handled :
      (k : String) (es : List Event) (s : Queue × State World)
      → Handled k es s (handle_all c o add key_func es s)
  unfolding handle_all
  handle_all-Handled k [] s = (refl, refl, refl)
  handle_all-Handled k (e ∷ es) s =
      let t = handle c o add key_func e s in
      Handled-then k e es s t (handle_all c o add key_func es t) (handle-Handled k e s)
        (handle_all-Handled k es t)
