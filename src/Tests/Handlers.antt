-- ===== src/Tests/Handlers.antt =====
-- The handlers on a queue that is a list of keys.
use transflect.Base.{String, refl, Bool, List, [], ◌∷◌, contains, string_eq}
use transflect.Outcome.{Outcome, ok, err, message}
use transflect.Replica.{object_key}
use transflect.Operator.Handlers.{
  Object, replica_set, deployment, unknown, Event, added, updated, deleted, handle_all,
}
use transflect.Operator.Handlers.Handled.{Handled, handle_all-Handled}
use transflect.Tests.Samples.{cluster, config, state, no_port, with_port}

abbrev add : String → List String → List String
add k q = k ∷ q

abbrev key_func : Object → Outcome String
key_func (replica_set rs) = ok (object_key rs.namespace rs.name)
key_func (deployment namespace name) = ok (object_key namespace name)
key_func unknown = err (message "object has no meta")

abbrev waits : String → List String → Bool
waits k q = contains q k

abbrev events : List Event
events =
    added (replica_set with_port)
    ∷ updated (replica_set with_port) (replica_set no_port)
    ∷ deleted (deployment "shop" "cart")
    ∷ deleted unknown
    ∷ []

handle_all-Handled_example :
    Handled cluster config add key_func waits
      (λ k j q. refl)
      "shop/cart"
      events
      ([], state)
      (handle_all cluster config add key_func events ([], state))
handle_all-Handled_example =
    handle_all-Handled cluster config add key_func waits (λ k j q. refl) "shop/cart" events
      ([], state)
