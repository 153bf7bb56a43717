-- ===== src/Tests/Restarts.antt =====
-- What a new leader takes over.
use native.Mathlib.Decide.{ℕ_discrete}
use transflect.Base.{◌<◌, ◌≡◌, refl, ◌≢◌, true, false, some, [], ◌∷◌, arith, string_eq}
use transflect.Base.Dict
use transflect.Text.{atoi}
use transflect.Kube.{get}
use transflect.Replica.{
  ActiveEntry, grpc_port, grpc_port_str, deploy_revision, deploy_revision_str, deploy_key,
  get_deployment_key, get_deployment, not_ready,
}
use transflect.Outcome.{ok}
use transflect.Filter.{new_envoy_filter}
use transflect.Backoff.{counter, counter-IsBackoff}
use transflect.Operator.{should_process}
use transflect.Operator.Sync.{get_active_entry, sync_active}
use transflect.Operator.Sync.Restart.{
  remembered, get_active_entry-new_envoy_filter, restart_reprocesses,
}
use transflect.Operator.Sync.Rounds.{first_page, synced, sync_active-eq-synced}
use transflect.Tests.Samples.{cluster, with_port, state}

named : deploy_key with_port ≡ "shop/cart"
unfolding deploy_key get_deployment_key get_deployment string_eq
named = refl

has_name : deploy_key with_port ≢ ""
has_name e = cc named

has_port : 0 < grpc_port with_port
unfolding grpc_port grpc_port_str atoi get Dict.lookup string_eq ℕ_discrete
has_port = omega arith

has_revision : 0 < deploy_revision with_port
unfolding deploy_revision deploy_revision_str atoi get Dict.lookup string_eq ℕ_discrete
has_revision = omega arith

is_ready : not_ready with_port ≡ false
unfolding not_ready ℕ_discrete
is_ready = refl

get_active_entry-new_envoy_filter_example :
    get_active_entry (new_envoy_filter with_port "CgA=" ("shop.Cart" ∷ []) "transflect-1")
    ≡ ok (deploy_key with_port, remembered with_port)
get_active_entry-new_envoy_filter_example =
    get_active_entry-new_envoy_filter with_port "CgA=" ("shop.Cart" ∷ []) "transflect-1" has_name
      has_port has_revision

restart_reprocesses_example :
    (entry : ActiveEntry) × (get_active_entry
        (new_envoy_filter with_port "CgA=" ("shop.Cart" ∷ []) "transflect-1")
      ≡ ok (deploy_key with_port, entry))
    × (should_process (some entry) with_port ≡ true)
unfolding get Dict.lookup string_eq
restart_reprocesses_example =
    restart_reprocesses with_port "CgA=" ("shop.Cart" ∷ []) "transflect-1" has_name has_port
      has_revision is_ready

sync_active-eq-synced_example :
    sync_active cluster counter state
    ≡ some (synced cluster 0 state (first_page cluster 12 state.session.world))
sync_active-eq-synced_example = sync_active-eq-synced cluster counter counter-IsBackoff state
